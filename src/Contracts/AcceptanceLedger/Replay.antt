-- ===== src/Contracts/AcceptanceLedger/Replay.antt =====
-- worker-acceptance-ledger.ts: what the replay of a log over entries keeps, and that it may be done
-- again.
use omp_lazy.Prelude.{
  ℕ, zero, suc, ◌+◌, ◌-◌, ◌≡◌, refl, sym, ap, subst, ◌∙◌, String, true, List, [], ◌∷◌, ◌++◌, none,
  some, length, string_eq, nat_eq, get_elem?, All, arith, nat_beq_iff, beq_refl, ◌⊎◌, inl, inr,
  Bool-cases, Option-cases,
}
use omp_lazy.Prelude.Result.{ok, ◌>>=◌, Result-cases}
use omp_lazy.State.Receipts.{AcceptanceEvent}
use omp_lazy.Contracts.LedgerSchema.{LedgerVersion, WalLine, in_sequence}
use omp_lazy.Contracts.AcceptanceLedger.{LedgerHost, same, parse_line, replay_line, replay_wal}

module _ {ℓ} {A : Type ℓ} where
  pub append_assoc : (xs ys zs : List A) → (xs ++ ys) ++ zs ≡ xs ++ (ys ++ zs)
  append_assoc [] ys zs = refl
  append_assoc (x ∷ xs) ys zs = ap (λ l. x ∷ l) (append_assoc xs ys zs)

  pub append_nil : (xs : List A) → xs ++ [] ≡ xs
  append_nil [] = refl
  append_nil (x ∷ xs) = ap (λ l. x ∷ l) (append_nil xs)

  pub get_elem?-append :
      (xs ys : List A) (n : ℕ) (x : A) → get_elem? xs n ≡ some x → get_elem? (xs ++ ys) n ≡ some x
  get_elem?-append [] ys n x e = cc
  get_elem?-append (y ∷ xs) ys zero x e = e
  get_elem?-append (y ∷ xs) ys (suc n) x e = get_elem?-append xs ys n x e

  pub get_elem?-middle :
      (xs : List A) (x : A) (ys : List A) → get_elem? (xs ++ x ∷ ys) (length xs) ≡ some x
  get_elem?-middle [] x ys = refl
  get_elem?-middle (y ∷ xs) x ys = get_elem?-middle xs x ys

  pub get_elem?-length : (xs : List A) → get_elem? xs (length xs) ≡ none
  get_elem?-length [] = refl
  get_elem?-length (y ∷ xs) = get_elem?-length xs

  pub length-snoc : (xs : List A) (x : A) → length (xs ++ x ∷ []) ≡ suc (length xs)
  length-snoc [] x = refl
  length-snoc (y ∷ xs) x = ap suc (length-snoc xs x)

pub in_sequence-get_elem? :
    (run_id : String) (n : ℕ) (es : List AcceptanceEvent) (k : ℕ) (e : AcceptanceEvent)
    → in_sequence run_id n es ≡ true
    → get_elem? es k ≡ some e
    → e.sequence ≡ suc (n + k)
unfolding in_sequence
in_sequence-get_elem? run_id n [] k e h g = cc
in_sequence-get_elem? run_id n (x ∷ es) zero e h g = ground (arith, nat_beq_iff x.sequence (suc n))
in_sequence-get_elem? run_id n (x ∷ es) (suc k) e h g =
    ground (arith, in_sequence-get_elem? run_id (suc n) es k e (ground arith) g)

module _ (host : LedgerHost) (version : LedgerVersion) where
  -- The line repeats an entry in its place.
  abbrev pub IsReplayed : List AcceptanceEvent → WalLine → Type 0
  IsReplayed entries line =
      (parse_line host version line ≡ true)
      × ((e : AcceptanceEvent) × (get_elem? entries (line.event.sequence - 1) ≡ some e)
          × (same host e line.event ≡ true))

  IsReplayed_more :
      (entries more : List AcceptanceEvent) (l : WalLine)
      → IsReplayed entries l
      → IsReplayed (entries ++ more) l
  IsReplayed_more entries more l (p, (e, g, s)) = (p, (e, get_elem?-append entries more _ e g, s))

  pub IsReplayed-append :
      (entries more : List AcceptanceEvent) (lines : List WalLine)
      → All (IsReplayed entries) lines
      → All (IsReplayed (entries ++ more)) lines
  IsReplayed-append entries more [] h = tt
  IsReplayed-append entries more (l ∷ lines) (hl, h) =
      (IsReplayed_more entries more l hl, IsReplayed-append entries more lines h)

  replay_line-replayed :
      (entries : List AcceptanceEvent) (l : WalLine)
      → IsReplayed entries l
      → replay_line host version entries l ≡ ok entries
  unfolding replay_line
  replay_line-replayed entries l (p, (e, g, s)) = rw (p, g, s) refl

  -- A line repeats an entry, or is new and goes to the end.
  replay_line-cases :
      (entries merged : List AcceptanceEvent) (l : WalLine)
      → replay_line host version entries l ≡ ok merged
      → ((merged ≡ entries) × IsReplayed entries l)
        ⊎ ((parse_line host version l ≡ true) × (merged ≡ entries ++ l.event ∷ []))
  unfolding replay_line
  replay_line-cases entries merged l h = elim (Bool-cases (parse_line host version l)) [
    | inl p ↦ elim (Option-cases (get_elem? entries (l.event.sequence - 1))) [
      | inl absent ↦ inr (p, ground (arith, p, absent))
      | inr (e, found) ↦ elim (Bool-cases (same host e l.event)) [
        | inl s ↦ inl (ground (arith, p, found, s), (p, (e, found, s)))
        | inr d ↦ absurd (ground (arith, p, found, d))
      ]
    ]
    | inr p ↦ absurd (ground (arith, p))
  ]

  pub replay_wal-replayed :
      (entries : List AcceptanceEvent) (lines : List WalLine)
      → All (IsReplayed entries) lines
      → replay_wal host version entries lines ≡ ok entries
  unfolding replay_wal
  replay_wal-replayed entries [] h = refl
  replay_wal-replayed entries (l ∷ lines) (hl, h) =
      let rest = replay_wal-replayed entries lines h in rw (replay_line-replayed entries l hl) rest

  pub replay_wal-append :
      (entries : List AcceptanceEvent) (lines more : List WalLine)
      → replay_wal host version entries (lines ++ more)
        ≡ (replay_wal host version entries lines >>= λ merged. replay_wal host version merged more)
  unfolding replay_wal
  replay_wal-append entries [] more = refl
  replay_wal-append entries (l ∷ lines) more =
      elim (Result-cases (replay_line host version entries l)) [
        | inl (merged, e) ↦ (let rest = replay_wal-append merged lines more in rw e rest)
        | inr (code, e) ↦ rw e refl
      ]

  pub replay_wal-extends :
      (entries : List AcceptanceEvent) (lines : List WalLine) (merged : List AcceptanceEvent)
      → replay_wal host version entries lines ≡ ok merged
      → (more : List AcceptanceEvent) × (merged ≡ entries ++ more)
  unfolding replay_wal
  replay_wal-extends entries [] merged e = ([], ground (arith, append_nil entries))
  replay_wal-extends entries (l ∷ lines) merged e =
      elim (Result-cases (replay_line host version entries l)) [
        | inl (middle, f) ↦
            let (more, g) = replay_wal-extends middle lines merged (ground (arith, f)) in
            elim (replay_line-cases entries middle l f) [
              | inl (same_entries, r) ↦ (more, cc)
              | inr (p, longer) ↦ (
                l.event ∷ more,
                g ∙ ap (λ x. x ++ more) longer ∙ append_assoc entries (l.event ∷ []) more,
              )
            ]
        | inr (code, f) ↦ absurd (ground (arith, f))
      ]

  repeated :
      (entries more : List AcceptanceEvent) (l : WalLine) (merged : List AcceptanceEvent)
      → merged ≡ entries ++ more
      → IsReplayed entries l
      → IsReplayed merged l
  repeated entries more l merged e r =
      subst (λ x. IsReplayed x l) (sym e) (IsReplayed_more entries more l r)

  before : {m n : ℕ} → m ≡ suc n → m - 1 ≡ n
  before e = omega (arith, e)

  placed :
      (run_id : String) (entries more : List AcceptanceEvent) (l : WalLine)
      (merged : List AcceptanceEvent)
      → merged ≡ entries ++ l.event ∷ more
      → parse_line host version l ≡ true
      → in_sequence run_id 0 merged ≡ true
      → IsReplayed merged l
  placed run_id entries more l merged e p s =
      let there : get_elem? merged (length entries) ≡ some l.event =
        ap (λ x. get_elem? x (length entries)) e ∙ get_elem?-middle entries l.event more in
      let place : l.event.sequence ≡ suc (length entries) =
        omega (arith, in_sequence-get_elem? run_id 0 merged (length entries) l.event s there) in
      (
        p,
        (l.event, ap (get_elem? merged) (before place) ∙ there, beq_refl (host.stringify l.event)),
      )

  -- Every line of a log that was replayed to entries in sequence is among them.
  pub replay_wal-IsReplayed :
      (run_id : String) (entries : List AcceptanceEvent) (lines : List WalLine)
      (merged : List AcceptanceEvent)
      → replay_wal host version entries lines ≡ ok merged
      → in_sequence run_id 0 merged ≡ true
      → All (IsReplayed merged) lines
  unfolding replay_wal
  replay_wal-IsReplayed run_id entries [] merged e s = tt
  replay_wal-IsReplayed run_id entries (l ∷ lines) merged e s =
      elim (Result-cases (replay_line host version entries l)) [
        | inl (middle, f) ↦
            let rest : replay_wal host version middle lines ≡ ok merged = ground (arith, f) in
            let (more, g) = replay_wal-extends middle lines merged rest in
            elim (replay_line-cases entries middle l f) [
              | inl (same_entries, r) ↦ (
                repeated entries more l merged (g ∙ ap (λ x. x ++ more) same_entries) r,
                replay_wal-IsReplayed run_id middle lines merged rest s,
              )
              | inr (p, longer) ↦ (
                placed run_id entries more l merged
                    (g ∙ ap (λ x. x ++ more) longer ∙ append_assoc entries (l.event ∷ []) more) p s,
                replay_wal-IsReplayed run_id middle lines merged rest s,
              )
            ]
        | inr (code, f) ↦ absurd (ground (arith, f))
      ]
