-- ===== src/Persistence/Wallets.antt =====
-- What the wallet operations (controller/src/persistence_metrics/mod.rs) guarantee over any run.
use mathlib.Core.Path.{subst}
use mathlib.Core.Option.{some-injective}
use pokemon_rs.Prelude.{
  ◌≡◌, refl, ◌≢◌, ◌⊎◌, inl, inr, true, false, some, List, [], ◌∷◌, arith, if◌then◌else◌, Bool-cases,
  Option-cases, All, ◌==◌, ok, err, Result-cases, nat_eq,
}
use pokemon_rs.Prelude.Map.{get, insert, get-insert, get-insert_self}
use pokemon_rs.Float.{F64, IsIeee, nought}
use pokemon_rs.Domain.{DomainError, not_found}
use pokemon_rs.Api.{Uuid, Wallet, WalletOperationType, debit, credit, Money}
use pokemon_rs.Persistence.{WalletStore, operate, apply_operation}

-- A request: the wallet, the operation, the amount.
abbrev pub Operation : Type 0 → Type 0
Operation F = Uuid × WalletOperationType × Money F

module _ {F : Type 0} ⦃f : F64 F⦄ where
  -- The two ways in which a call of `apply_operation` ends.
  apply_operation-cases :
      (id : Uuid) (op : WalletOperationType) (amount : Money F) (m : WalletStore F)
      → ((e : DomainError) × (apply_operation id op amount m ≡ (m, err e)))
        ⊎ ((w w' : Wallet F) × (get id m ≡ some w)
            × (operate op amount w ≡ ok w')
            × (apply_operation id op amount m ≡ (insert id w' m, ok w')))
  unfolding apply_operation
  apply_operation-cases id op amount m = elim (Option-cases (get id m)) [
    | inl missing ↦ inl (not_found id, rw (missing, apply_operation))
    | inr (w, found) ↦ elim (Result-cases (operate op amount w)) [
      | inl (w', done) ↦ inr (w, w', found, done, rw (found, apply_operation) (rw done))
      | inr (e, refused) ↦ inl (e, rw (found, apply_operation) (rw refused))
    ]
  ]

  -- A failed operation changes nothing; a successful one returns the wallet that it stored under
  -- the identifier, and touches no other wallet.
  pub apply_operation_frame :
      (id : Uuid) (op : WalletOperationType) (amount : Money F) (m : WalletStore F)
      → let (m', r) = apply_operation id op amount m in
        ((e : DomainError) → r ≡ err e → m' ≡ m)
        × ((w : Wallet F) → r ≡ ok w → get id m' ≡ some w)
        × ((j : Uuid) → id ≢ j → get j m' ≡ get j m)
  apply_operation_frame id op amount m = elim (apply_operation-cases id op amount m) [
    | inl (e, refused) ↦ rw refused (λ e h. refl, λ w h. cc, λ j h. refl)
    | inr (w, w', found, done, ran) ↦ rw ran (
      λ e h. cc,
      λ v h. ground (arith, get-insert_self id w' m),
      λ j h. ground (arith, get-insert id j w' m),
    )
  ]

  -- The two guarantees that a wallet is meant to keep.
  abbrev pub WithinLimit : Wallet F → Type 0
  WithinLimit w = f.lt w.daily_limit.amount w.daily_spent.amount ≡ false

  abbrev pub NotOverdrawn : Wallet F → Type 0
  NotOverdrawn w = f.lt w.balance.amount nought ≡ false

  abbrev pub run : List (Operation F) → WalletStore F → WalletStore F
  run [] m = m
  run ((id, op, amount) ∷ ops) m = run ops (apply_operation id op amount m).0

  abbrev pub Every {κ} : (Wallet F → Type κ) → WalletStore F → Type κ
  Every P m = (id : Uuid) (w : Wallet F) → get id m ≡ some w → P w

  pub operate-WithinLimit :
      (op : WalletOperationType) (amount : Money F) (w w' : Wallet F)
      → WithinLimit w
      → operate op amount w ≡ ok w'
      → WithinLimit w'
  unfolding operate
  operate-WithinLimit debit amount w w' h e = ground arith
  operate-WithinLimit credit amount w w' h e = ground arith

  pub Every-apply_operation {κ} :
      (P : Wallet F → Type κ) (id : Uuid) (op : WalletOperationType) (amount : Money F)
      (m : WalletStore F)
      → ((w w' : Wallet F) → P w → operate op amount w ≡ ok w' → P w')
      → Every P m
      → Every P (apply_operation id op amount m).0
  Every-apply_operation P id op amount m keep h = elim (apply_operation-cases id op amount m) [
    | inl (e, refused) ↦ rw refused h
    | inr (w, w', found, done, ran) ↦ rw ran λ j v at_j.
        let here : (if id == j then some w' else get j m) ≡ some v =
          rw (get-insert id j w' m) at at_j in
        elim (Bool-cases (id == j)) [
          | inl same ↦
              subst P (some-injective _ _ (rw same at here)) (keep w w' (h id w found) done)
          | inr other ↦ h j v (rw other at here)
        ]
  ]

  -- Whatever operations are asked for, with whatever amounts and in whatever order, no wallet's
  -- daily spending ever exceeds its daily limit, if none does at the start.
  pub run-WithinLimit :
      (ops : List (Operation F)) (m : WalletStore F)
      → Every WithinLimit m
      → (j : Uuid) (w : Wallet F) → get j (run ops m) ≡ some w
      → WithinLimit w
  run-WithinLimit [] m h = h
  run-WithinLimit ((id, op, amount) ∷ ops) m h =
      run-WithinLimit ops _
        (Every-apply_operation WithinLimit id op amount m (operate-WithinLimit op amount) h)

  -- The amounts of the credits are not negative.
  abbrev pub CreditsNonneg : List (Operation F) → Type 0
  CreditsNonneg = All λ o. o.1 ≡ credit → f.lt o.2.amount nought ≡ false

  module _ (laws : IsIeee F) where
    pub operate-NotOverdrawn :
        (op : WalletOperationType) (amount : Money F) (w w' : Wallet F)
        → (op ≡ credit → f.lt amount.amount nought ≡ false)
        → NotOverdrawn w
        → operate op amount w ≡ ok w'
        → NotOverdrawn w'
    unfolding operate
    operate-NotOverdrawn debit amount w w' c h e =
        ground (arith, laws.sub_nonneg w.balance.amount amount.amount)
    operate-NotOverdrawn credit amount w w' c h e =
        ground (arith, c refl, laws.add_nonneg w.balance.amount amount.amount)

    -- Under the laws of IEEE 754: if no wallet is overdrawn at the start and every credit of the
    -- run has a non-negative amount, then no wallet is overdrawn at the end, whatever the debits
    -- are.
    pub run-NotOverdrawn :
        (ops : List (Operation F)) (m : WalletStore F)
        → CreditsNonneg ops
        → Every NotOverdrawn m
        → (j : Uuid) (w : Wallet F) → get j (run ops m) ≡ some w
        → NotOverdrawn w
    run-NotOverdrawn [] m c h = h
    run-NotOverdrawn ((id, op, amount) ∷ ops) m (c, cs) h = run-NotOverdrawn ops _ cs (
        Every-apply_operation NotOverdrawn id op amount m
          (λ w w'. operate-NotOverdrawn op amount w w' c) h)

    -- Under the laws of IEEE 754: a debit of a negative amount passes both guards on every wallet
    -- that keeps them, and leaves the balance no lower than before: it is a credit that the daily
    -- limit does not stop.
    pub negative_debit :
        (id : Uuid) (amount : Money F) (m : WalletStore F) (w : Wallet F)
        → get id m ≡ some w
        → NotOverdrawn w
        → WithinLimit w
        → f.lt amount.amount nought ≡ true
        → (w' : Wallet F) × ((apply_operation id debit amount m).1 ≡ ok w')
          × (f.lt w'.balance.amount w.balance.amount ≡ false)
    unfolding operate apply_operation
    negative_debit id amount m w found b l neg =
        let x = amount.amount in
        let first : f.lt w.balance.amount x ≡ false = laws.lt_negative w.balance.amount x neg b in
        let second : f.lt w.daily_limit.amount (f.add w.daily_spent.amount x) ≡ false =
          laws.add_negative w.daily_limit.amount w.daily_spent.amount x neg l in
        (
          record w {
            balance = record { amount = f.sub w.balance.amount x; currency = w.balance.currency };
            daily_spent = record {
              amount = f.add w.daily_spent.amount x;
              currency = w.daily_spent.currency;
            };
          },
          rw (found, apply_operation) (rw (first, operate) (rw (second, operate) refl)),
          laws.sub_negative w.balance.amount x neg,
        )
