-- ===== src/Facts/Arena/NetValue/Exact.antt =====
-- `net_value_extracted` against the sums of what the calls move.
use rootcause.Prelude.{
  ℕ, suc, ◌+◌, ◌<◌, ◌≤◌, ◌≡◌, refl, inl, inr, Bool, true, false, Option, none, some, List, [], ◌∷◌,
  ltb, lt→ltb, ltb→lt, leb, ◌==◌, nat_Eq, list_Eq, option_Eq, nat_eq_iff, if◌then◌else◌, Bool-cases,
  Option-cases, arith,
}
use rootcause.Prelude.Int.{ℤ, pos, negsuc}
use rootcause.Facts.Types.{Address, Call, ValueFlow, flow_of_call}
use rootcause.Facts.Arena.{FactArena, flows_of, value_flows}
use rootcause.Facts.Arena.NetValue.{
  i128_bound, in_i128, add_nat, sub_nat, credit, debit, net_from, net_value_extracted,
}

-- What the calls move to an address, and what they move from it.
abbrev counted : Bool → ℕ → ℕ
counted b n = if b then n else 0

abbrev pub received : Address → List Call → ℕ
received a [] = 0
received a (c ∷ cs) = counted (c.to == some a) c.value + received a cs

abbrev pub sent : Address → List Call → ℕ
sent a [] = 0
sent a (c ∷ cs) = counted (c.from == a) c.value + sent a cs

-- `net` is `gained` less `lost`.
abbrev pub IsDifference : ℤ → ℕ → ℕ → Type 0
IsDifference (pos n) gained lost = n + lost ≡ gained
IsDifference (negsuc n) gained lost = suc n + gained ≡ lost

in_i128-some : (z w : ℤ) → in_i128 z ≡ some w → z ≡ w
in_i128-some (pos n) w h = ground arith
in_i128-some (negsuc n) w h = ground arith

add_nat-IsDifference :
    (z : ℤ) (n gained lost : ℕ)
    → IsDifference z gained lost
    → IsDifference (add_nat z n) (gained + n) lost
add_nat-IsDifference (pos a) n gained lost h = omega arith
add_nat-IsDifference (negsuc a) n gained lost h = elim (Bool-cases (leb n a)) [
  | inl less ↦ rw less (ground arith)
  | inr more ↦ rw more (ground arith)
]

sub_nat-IsDifference :
    (z : ℤ) (n gained lost : ℕ)
    → IsDifference z gained lost
    → IsDifference (sub_nat z n) gained (lost + n)
sub_nat-IsDifference (pos a) n gained lost h = elim (Bool-cases (leb n a)) [
  | inl less ↦ rw less (ground arith)
  | inr more ↦ rw more (ground arith)
]
sub_nat-IsDifference (negsuc a) n gained lost h = omega arith

credit-IsDifference :
    (b : Bool) (net z : ℤ) (n gained lost : ℕ)
    → IsDifference net gained lost
    → credit b net n ≡ some z
    → IsDifference z (gained + counted b n) lost
credit-IsDifference false net z n gained lost d h =
    let same : net ≡ z = cc in
    let none_more : gained + 0 ≡ gained = omega arith in rw (← same, none_more) d
credit-IsDifference true net z n gained lost d h = elim (Bool-cases (ltb n i128_bound)) [
  | inr large ↦ absurd (let stuck = rw large at h in cc)
  | inl small ↦
      let same = in_i128-some (add_nat net n) z (rw small at h) in
      rw (← same) (add_nat-IsDifference net n gained lost d)
]

debit-IsDifference :
    (b : Bool) (net z : ℤ) (n gained lost : ℕ)
    → IsDifference net gained lost
    → debit b net n ≡ some z
    → IsDifference z gained (lost + counted b n)
debit-IsDifference false net z n gained lost d h =
    let same : net ≡ z = cc in
    let none_more : lost + 0 ≡ lost = omega arith in rw (← same, none_more) d
debit-IsDifference true net z n gained lost d h = elim (Bool-cases (ltb n i128_bound)) [
  | inr large ↦ absurd (let stuck = rw large at h in cc)
  | inl small ↦
      let same = in_i128-some (sub_nat net n) z (rw small at h) in
      rw (← same) (sub_nat-IsDifference net n gained lost d)
]

counted-zero : (b : Bool) → counted b 0 ≡ 0
counted-zero true = refl
counted-zero false = refl

flow : Call → ValueFlow
flow c = record { call_id = c.id; from = c.from; to = c.to; amount = c.value }

flows_of-still :
    (c : Call) (cs : List Call) → (c.value == 0) ≡ true → flows_of (c ∷ cs) ≡ flows_of cs
unfolding flow_of_call
flows_of-still c cs h = rw (h, flows_of)

flows_of-moved :
    (c : Call) (cs : List Call) → (c.value == 0) ≡ false → flows_of (c ∷ cs) ≡ flow c ∷ flows_of cs
unfolding flow_of_call flow
flows_of-moved c cs h = rw (h, flows_of)

net_from-IsDifference :
    (a : Address) (cs : List Call) (net z : ℤ) (gained lost : ℕ)
    → IsDifference net gained lost
    → net_from a net (flows_of cs) ≡ some z
    → IsDifference z (gained + received a cs) (lost + sent a cs)
unfolding flow
net_from-IsDifference a [] net z gained lost d h =
    let same : net ≡ z = cc in
    let g : gained + 0 ≡ gained = omega arith in
    let l : lost + 0 ≡ lost = omega arith in rw (← same, g, l) d
net_from-IsDifference a (c ∷ cs) net z gained lost d h = elim (Bool-cases (c.value == 0)) [
  | inl nothing ↦
      let rest =
        net_from-IsDifference a cs net z gained lost d (rw (flows_of-still c cs nothing) at h) in
      let zero_value : c.value ≡ 0 = (nat_eq_iff c.value 0).0 nothing in
      let no_gain = counted-zero (c.to == some a) in
      let no_loss = counted-zero (c.from == a) in
      let g : gained + (0 + received a cs) ≡ gained + received a cs = omega arith in
      let l : lost + (0 + sent a cs) ≡ lost + sent a cs = omega arith in
      rw (zero_value, no_gain, no_loss, g, l) rest
  | inr moved ↦
      let credits = c.to == some a in
      let debits = c.from == a in
      let stepped = rw (flows_of-moved c cs moved) at h in
      elim (Option-cases (credit credits net c.value)) [
        | inl over ↦ absurd (let stuck = rw (over, net_from) at stepped in cc)
        | inr (credited, up) ↦
            let later = rw (up, net_from) at stepped in
            elim (Option-cases (debit debits credited c.value)) [
              | inl under ↦ absurd (let stuck = rw (under, net_from) at later in cc)
              | inr (debited, down) ↦
                  let d₁ = credit-IsDifference credits net credited c.value gained lost d up in
                  let d₂ =
                    debit-IsDifference debits credited debited c.value
                      (gained + counted credits c.value) lost d₁ down in
                  let rest =
                    net_from-IsDifference a cs debited z (gained + counted credits c.value)
                      (lost + counted debits c.value) d₂ (rw (down, net_from) at later) in
                  let g : gained + (counted credits c.value + received a cs)
                      ≡ gained + counted credits c.value + received a cs =
                    omega arith in
                  let l : lost + (counted debits c.value + sent a cs)
                      ≡ lost + counted debits c.value + sent a cs =
                    omega arith in
                  rw (g, l) rest
            ]
      ]
]

in_i128-fits :
    (z : ℤ) (gained lost : ℕ)
    → IsDifference z gained lost
    → gained + lost < i128_bound
    → in_i128 z ≡ some z
in_i128-fits (pos n) gained lost d h =
    let below : n < i128_bound = omega arith in rw (lt→ltb n i128_bound below) refl
in_i128-fits (negsuc n) gained lost d h =
    let below : n < i128_bound = omega arith in rw (lt→ltb n i128_bound below) refl

credit-fits :
    (b : Bool) (net : ℤ) (n gained lost : ℕ)
    → IsDifference net gained lost
    → gained + counted b n + lost < i128_bound
    → (z : ℤ) × (credit b net n ≡ some z)
credit-fits false net n gained lost d h = (net, refl)
credit-fits true net n gained lost d h =
    let below : n < i128_bound = omega arith in
    let next = add_nat-IsDifference net n gained lost d in
    let fits = in_i128-fits (add_nat net n) (gained + n) lost next h in
    (add_nat net n, rw (lt→ltb n i128_bound below) fits)

debit-fits :
    (b : Bool) (net : ℤ) (n gained lost : ℕ)
    → IsDifference net gained lost
    → gained + (lost + counted b n) < i128_bound
    → (z : ℤ) × (debit b net n ≡ some z)
debit-fits false net n gained lost d h = (net, refl)
debit-fits true net n gained lost d h =
    let below : n < i128_bound = omega arith in
    let next = sub_nat-IsDifference net n gained lost d in
    let fits = in_i128-fits (sub_nat net n) gained (lost + n) next h in
    (sub_nat net n, rw (lt→ltb n i128_bound below) fits)

net_from-fits :
    (a : Address) (cs : List Call) (net : ℤ) (gained lost : ℕ)
    → IsDifference net gained lost
    → gained + received a cs + (lost + sent a cs) < i128_bound
    → (z : ℤ) × (net_from a net (flows_of cs) ≡ some z)
unfolding flow
net_from-fits a [] net gained lost d h = (net, refl)
net_from-fits a (c ∷ cs) net gained lost d h =
    let credits = c.to == some a in
    let debits = c.from == a in
    elim (Bool-cases (c.value == 0)) [
      | inl nothing ↦
          let (z, rest) = net_from-fits a cs net gained lost d (omega arith) in
          (z, rw (flows_of-still c cs nothing) rest)
      | inr moved ↦
          let (credited, up) = credit-fits credits net c.value gained lost d (omega arith) in
          let d₁ = credit-IsDifference credits net credited c.value gained lost d up in
          let (debited, down) =
            debit-fits debits credited c.value (gained + counted credits c.value) lost d₁
              (omega arith) in
          let d₂ =
            debit-IsDifference debits credited debited c.value (gained + counted credits c.value)
              lost d₁ down in
          let (z, rest) =
            net_from-fits a cs debited (gained + counted credits c.value)
              (lost + counted debits c.value) d₂ (omega arith) in
          (z, rw (flows_of-moved c cs moved, net_from, up, down) rest)
    ]

-- A number is the difference; no number is returned only for sums that reach 2^127.
abbrev pub NetIsExact : Option ℤ → ℕ → ℕ → Type 0
NetIsExact (some z) gained lost = IsDifference z gained lost
NetIsExact none gained lost = i128_bound ≤ gained + lost

-- What `net_value_extracted` returns is exactly what the calls of the arena move to the address,
-- less what they move from it, so nothing has wrapped, and a loss is returned as the negative
-- number that it is; it returns no number only where the two sums together reach 2^127.
pub net_value_extracted-NetIsExact :
    (arena : FactArena) (a : Address)
    → NetIsExact (net_value_extracted arena a) (received a arena.calls) (sent a arena.calls)
unfolding net_value_extracted value_flows
net_value_extracted-NetIsExact arena a =
    let calls = arena.calls in
    let g : 0 + received a calls ≡ received a calls = omega arith in
    let l : 0 + sent a calls ≡ sent a calls = omega arith in
    elim (Option-cases (net_from a (pos 0) (flows_of calls))) [
      | inr (z, h) ↦
          let exact = rw (g, l) at (net_from-IsDifference a calls (pos 0) z 0 0 refl h) in
          rw h exact
      | inl over ↦ elim (Bool-cases (ltb (received a calls + sent a calls) i128_bound)) [
        | inl room ↦ absurd (
            let (z, h) = net_from-fits a calls (pos 0) 0 0 refl (omega (arith, ltb→lt _ _ room)) in
            cc)
        | inr full ↦ rw over (ground arith)
      ]
    ]
