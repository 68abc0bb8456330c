-- ===== src/Tests/Wallets.antt =====
-- The wallet theorems on the sample service.
use pokemon_rs.Prelude.{◌≡◌, refl, false, some, List, [], ◌∷◌, arith, ok, nat_eq}
use pokemon_rs.Prelude.Map.{get, insert}
use pokemon_rs.Prelude.Int.{◌+ℤ◌, ◌-ℤ◌, negsuc}
use pokemon_rs.Float.Fixed.{Fixed, fixed_f64, Fixed-IsIeee}
use pokemon_rs.Api.{Wallet, Money, debit, credit, aud}
use pokemon_rs.Persistence.{operate, apply_operation}
use pokemon_rs.Persistence.Wallets.{
  Operation, Every, WithinLimit, NotOverdrawn, run, negative_debit,
}
use pokemon_rs.Tests.{sample_wallet, sample_wallets, dollars}

abbrev operations : List (Operation Fixed)
operations = (9, debit, dollars 30) ∷ (9, debit, dollars 30) ∷ (8, credit, dollars 1) ∷ []

sample-WithinLimit : Every WithinLimit sample_wallets
unfolding get
sample-WithinLimit id w found = ground arith

sample-NotOverdrawn : Every NotOverdrawn sample_wallets
unfolding get
sample-NotOverdrawn id w found = ground arith

-- After the first debit; the second one and the credit are refused.
abbrev debited : Wallet Fixed
debited = record sample_wallet { balance = dollars 70; daily_spent = dollars 40 }

ran : get 9 (run operations sample_wallets) ≡ some debited
unfolding get insert operate apply_operation ◌+ℤ◌ ◌-ℤ◌
ran = refl

abbrev minus_one : Money Fixed
minus_one = record { amount = some (negsuc 9999); currency = aud }

negative_debit_example :
    (w' : Wallet Fixed) × ((apply_operation 9 debit minus_one sample_wallets).1 ≡ ok w')
    × (fixed_f64.lt w'.balance.amount sample_wallet.balance.amount ≡ false)
unfolding get
negative_debit_example =
    negative_debit Fixed-IsIeee 9 minus_one sample_wallets sample_wallet refl refl refl refl
