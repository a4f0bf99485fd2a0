-- ===== src/Facts/Arena/NetValue.antt =====
-- arena.rs `net_value_extracted`: what an address gains over a trace, in checked i128 arithmetic.
pub mod Exact
use rootcause.Prelude.{
  ℕ, suc, ◌+◌, ◌-◌, ◌^◌, ◌<◌, ◌≤◌, ◌≡◌, refl, inl, inr, Bool, true, false, Option, none, some, List,
  [], ◌∷◌, ltb, lt→ltb, ltb→lt, leb, ◌==◌, nat_Eq, list_Eq, option_Eq, nat_eq_iff, if◌then◌else◌,
  Bool-cases, Option-cases, arith,
}
use rootcause.Prelude.Int.{ℤ, pos, negsuc}
use rootcause.Facts.Types.{Address, Call, ValueFlow, flow_of_call}
use rootcause.Facts.Arena.{FactArena, flows_of, value_flows}

abbrev pub i128_bound : ℕ
i128_bound = 2 ^ 127

abbrev pub in_i128 : ℤ → Option ℤ
in_i128 (pos n) = if ltb n i128_bound then some (pos n) else none
in_i128 (negsuc n) = if ltb n i128_bound then some (negsuc n) else none

abbrev pub add_nat : ℤ → ℕ → ℤ
add_nat (pos a) n = pos (a + n)
add_nat (negsuc a) n = if leb n a then negsuc (a - n) else pos (n - suc a)

abbrev pub sub_nat : ℤ → ℕ → ℤ
sub_nat (pos a) n = if leb n a then pos (a - n) else negsuc (n - suc a)
sub_nat (negsuc a) n = negsuc (a + n)

-- `net.checked_add(i128::try_from(amount).ok()?)`, where the address is the receiver, and likewise
-- `checked_sub` where it is the sender.
abbrev pub credit : Bool → ℤ → ℕ → Option ℤ
credit false net amount = some net
credit true net amount = if ltb amount i128_bound then in_i128 (add_nat net amount) else none

abbrev pub debit : Bool → ℤ → ℕ → Option ℤ
debit false net amount = some net
debit true net amount = if ltb amount i128_bound then in_i128 (sub_nat net amount) else none

-- The loop over the flows.
abbrev pub net_from : Address → ℤ → List ValueFlow → Option ℤ
net_from a net [] = some net
net_from a net (f ∷ fs) = elim (credit (f.to == some a) net f.amount) [
  | none ↦ none
  | some credited ↦ elim (debit (f.from == a) credited f.amount) [
    | none ↦ none
    | some debited ↦ net_from a debited fs
  ]
]

unfoldable pub net_value_extracted : FactArena → Address → Option ℤ
unfolding value_flows flow_of_call
net_value_extracted arena a = net_from a (pos 0) (value_flows arena)
