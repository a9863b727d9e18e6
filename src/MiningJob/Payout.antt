-- ===== src/MiningJob/Payout.antt =====
-- What a coinbase pays, and the two parts of it that the miner is sent.
use elektron_net_ppool.Common.{
  ◌⊎◌, ◌<◌, ◌≤◌, ℕ, zero, suc, ◌+◌, ℤ, pos, ◌+ℤ◌, ◌-ℤ◌, ◌≡◌, refl, ap, subst, Option, none, some,
  List, [], ◌∷◌, ◌++◌, ltb, arith, Bool-cases, inl, inr, drop, int_laws, parts_of_eq,
}
use elektron_net_ppool.Common.Float.{Float64}
use elektron_net_ppool.MiningJob.{
  or_empty, get_payment_script, TxOut, CoinbaseTransaction, AddressObject, CoinbaseTemplate,
  Bitcoin, take, pay_each, add_balance, within_weight, max_block_weight, create_coinbase_outputs,
  coinbase_of, finish_coinbase, extra_outputs, coinbase_split_offset, coinbase_part1,
  coinbase_part2, swap_endian_words,
}

-- The satoshis that a list of outputs pays.
unfoldable pub paid : List TxOut → ℤ
paid [] = pos 0
paid (o ∷ outs) = o.value +ℤ paid outs

pub paid-append : (xs ys : List TxOut) → paid (xs ++ ys) ≡ paid xs +ℤ paid ys
unfolding paid
paid-append [] ys = omega int_laws
paid-append (x ∷ xs) ys = rw (paid-append xs ys) (omega int_laws)

pay_each-paid :
    (f : Float64) (lib : Bitcoin) (reward : ℤ) (addresses : List AddressObject) (balance : ℤ)
    → paid (pay_each f lib reward addresses balance).0
        +ℤ (pay_each f lib reward addresses balance).1
      ≡ balance
unfolding paid pay_each
pay_each-paid f lib reward [] balance = omega int_laws
pay_each-paid f lib reward (a ∷ rest) balance =
    let amount =
      f.floor (f.mul (f.div (f.of_int (pos a.percent)) (f.of_int (pos 100))) (f.of_int reward)) in
    omega (int_laws, parts_of_eq _ _ (pay_each-paid f lib reward rest (balance -ℤ amount)))

some_inj : {x y : List TxOut} → some x ≡ some y → x ≡ y
some_inj e = ground (arith, e)

-- What an output pays to: the script of the address, or an empty one where the address has none.
abbrev pub PaysTo : Bitcoin → AddressObject → TxOut → Type 0
PaysTo lib a o =
    (lib.to_output_script a.address ≡ some o.script)
    ⊎ ((lib.to_output_script a.address ≡ none) × (o.script ≡ []))

or_empty-cases : (o : Option (List ℕ)) → (o ≡ some (or_empty o)) ⊎ ((o ≡ none) × (or_empty o ≡ []))
or_empty-cases none = inr (refl, refl)
or_empty-cases (some s) = inl refl

module _ (f : Float64) (lib : Bitcoin) (reward : ℤ) where
  -- One output for each address, with its percentage of the reward, rounded down.
  unfoldable pub ArePaid : List AddressObject → List TxOut → Type 0
  ArePaid [] outs = outs ≡ []
  ArePaid (a ∷ rest) [] = ⊥
  ArePaid (a ∷ rest) (o ∷ outs) =
      PaysTo lib a o
      × (o.value
          ≡ f.floor
              (f.mul (f.div (f.of_int (pos a.percent)) (f.of_int (pos 100))) (f.of_int reward)))
      × ArePaid rest outs

  -- The same, but that the first address has what is left of the reward.
  unfoldable pub IsPayout : List AddressObject → List TxOut → Type 0
  unfolding ArePaid
  IsPayout [] outs = ⊥
  IsPayout (a ∷ rest) [] = ⊥
  IsPayout (a ∷ rest) (o ∷ outs) =
      PaysTo lib a o × ArePaid rest outs × (o.value +ℤ paid outs ≡ reward)

  pay_each-ArePaid :
      (addresses : List AddressObject) (balance : ℤ)
      → ArePaid addresses (pay_each f lib reward addresses balance).0
  unfolding ArePaid pay_each get_payment_script
  pay_each-ArePaid [] balance = refl
  pay_each-ArePaid (a ∷ rest) balance =
      (or_empty-cases (lib.to_output_script a.address), refl, pay_each-ArePaid rest _)

  add_balance-IsPayout :
      (addresses : List AddressObject) (p : List TxOut × ℤ) (outs : List TxOut)
      → ArePaid addresses p.0
      → paid p.0 +ℤ p.1 ≡ reward
      → add_balance p ≡ some outs
      → IsPayout addresses outs
  unfolding ArePaid IsPayout paid
  add_balance-IsPayout addresses ([], balance) outs h k e = absurd (ground (arith, e))
  add_balance-IsPayout [] (o ∷ rest, balance) outs h k e = absurd (ground (arith, h))
  add_balance-IsPayout (a ∷ addresses) (o ∷ rest, balance) outs h k e =
      subst (IsPayout (a ∷ addresses)) (some_inj e) (h.0, h.2, omega (int_laws, parts_of_eq _ _ k))

-- The outputs behind those to the addresses: the required ones, or else the witness commitment.
unfoldable pub AreExtra : Bitcoin → List TxOut → Option (List ℕ) → List TxOut → Type 0
AreExtra lib (o ∷ outs) commit extras = extras ≡ o ∷ outs
AreExtra lib [] none extras = extras ≡ []
AreExtra lib [] (some commit) extras =
    extras ≡ record { script = lib.commitment_script commit; value = pos 0 } ∷ []

extra_outputs-AreExtra :
    (lib : Bitcoin) (required : List TxOut) (commit : Option (List ℕ))
    → AreExtra lib required commit (extra_outputs lib required commit)
unfolding AreExtra extra_outputs
extra_outputs-AreExtra lib (o ∷ outs) commit = refl
extra_outputs-AreExtra lib [] none = refl
extra_outputs-AreExtra lib [] (some commit) = refl

-- What a coinbase is for a template, but for its weight.
pub record IsMade (f : Float64) (lib : Bitcoin) (addresses : List AddressObject)
    (t : CoinbaseTemplate) (tx : CoinbaseTransaction) : Type 0 where
  pub paying : List TxOut
  pub extras : List TxOut
  pub outs : tx.outs ≡ paying ++ extras
  pub payout : IsPayout f lib t.coinbasevalue addresses paying
  pub extra : AreExtra lib t.coinbase_required_outputs t.witness_commit extras
  pub locktime : tx.locktime +ℤ pos 1 ≡ pos t.height

-- A coinbase for a template, and why there is none.
unfoldable pub IsCoinbase :
    Float64 → Bitcoin → List AddressObject → CoinbaseTemplate → Option CoinbaseTransaction → Type 0
IsCoinbase f lib addresses t none =
    (addresses ≡ [])
    ⊎ ((tx : CoinbaseTransaction) × (IsMade f lib addresses t tx
          × (max_block_weight < lib.weight tx + t.block_weight)))
IsCoinbase f lib addresses t (some tx) =
    IsMade f lib addresses t tx × (lib.weight tx + t.block_weight ≤ max_block_weight)

within_weight-IsCoinbase :
    (f : Float64) (lib : Bitcoin) (addresses : List AddressObject) (t : CoinbaseTemplate)
    (tx : CoinbaseTransaction)
    → IsMade f lib addresses t tx
    → IsCoinbase f lib addresses t (within_weight lib t tx)
unfolding IsCoinbase
within_weight-IsCoinbase f lib addresses t tx made =
    elim (Bool-cases (ltb max_block_weight (lib.weight tx + t.block_weight))) [
      | inl e ↦ rw e (inr (tx, (made, ground arith)))
      | inr e ↦ rw e (made, ground arith)
    ]

finish_coinbase-IsCoinbase :
    (f : Float64) (lib : Bitcoin) (addresses : List AddressObject) (t : CoinbaseTemplate)
    (o : Option (List TxOut))
    → ((outs : List TxOut) → o ≡ some outs → IsPayout f lib t.coinbasevalue addresses outs)
    → (o ≡ none → addresses ≡ [])
    → IsCoinbase f lib addresses t (finish_coinbase lib t o)
unfolding IsCoinbase finish_coinbase
finish_coinbase-IsCoinbase f lib addresses t none h empty = inl (empty refl)
finish_coinbase-IsCoinbase f lib addresses t (some outs) h empty =
    within_weight-IsCoinbase f lib addresses t _ (record {
      paying = outs;
      extras = extra_outputs lib t.coinbase_required_outputs t.witness_commit;
      outs = refl;
      payout = h outs refl;
      extra = extra_outputs-AreExtra lib t.coinbase_required_outputs t.witness_commit;
      locktime = omega int_laws;
    })

create_coinbase_outputs-none :
    (f : Float64) (lib : Bitcoin) (addresses : List AddressObject) (reward : ℤ)
    → create_coinbase_outputs f lib addresses reward ≡ none
    → addresses ≡ []
unfolding create_coinbase_outputs pay_each
create_coinbase_outputs-none f lib [] reward h = refl
create_coinbase_outputs-none f lib (a ∷ rest) reward h = absurd (ground arith)

create_coinbase_outputs-IsPayout :
    (f : Float64) (lib : Bitcoin) (addresses : List AddressObject) (reward : ℤ) (outs : List TxOut)
    → create_coinbase_outputs f lib addresses reward ≡ some outs
    → IsPayout f lib reward addresses outs
unfolding create_coinbase_outputs
create_coinbase_outputs-IsPayout f lib addresses reward outs e =
    add_balance-IsPayout f lib reward addresses (pay_each f lib reward addresses reward) outs
      (pay_each-ArePaid f lib reward addresses reward) (pay_each-paid f lib reward addresses reward)
      e

-- A coinbase has one output for each address, in their order, to the script of the address, with its
-- percentage of the template's value rounded down, but the first, which has what is left of the value; then
-- the required outputs or else the witness commitment. Its lock time is one below the height, and
-- it and the block weigh at most 4,000,000. There is no coinbase only without an address, or where
-- the one that is so made is above that weight.
pub coinbase_of-IsCoinbase :
    (f : Float64) (lib : Bitcoin) (addresses : List AddressObject) (t : CoinbaseTemplate)
    → IsCoinbase f lib addresses t (coinbase_of f lib addresses t)
unfolding coinbase_of
coinbase_of-IsCoinbase f lib addresses t =
    finish_coinbase-IsCoinbase f lib addresses t
      (create_coinbase_outputs f lib addresses t.coinbasevalue)
      (create_coinbase_outputs-IsPayout f lib addresses t.coinbasevalue)
      (create_coinbase_outputs-none f lib addresses t.coinbasevalue)

take-append-drop : (n : ℕ) (xs : List ℕ) → take n xs ++ drop n xs ≡ xs
take-append-drop zero xs = refl
take-append-drop (suc n) [] = refl
take-append-drop (suc n) (x ∷ xs) = ap (λ r. x ∷ r) (take-append-drop n xs)

pub coinbase_part1-coinbase_part2 :
    (lib : Bitcoin) (tx : CoinbaseTransaction)
    → coinbase_part1 lib tx ++ coinbase_part2 lib tx ≡ lib.to_buffer tx
unfolding coinbase_part1 coinbase_part2
coinbase_part1-coinbase_part2 lib tx =
    take-append-drop (coinbase_split_offset tx) (lib.to_buffer tx)

-- A buffer of whole words.
unfoldable pub IsWords : List ℕ → Type 0
IsWords [] = Unit
IsWords (a ∷ b ∷ c ∷ d ∷ s) = IsWords s
IsWords (a ∷ b ∷ c ∷ []) = ⊥
IsWords (a ∷ b ∷ []) = ⊥
IsWords (a ∷ []) = ⊥

-- Swapping the words twice gives a buffer of whole words back.
pub swap_endian_words_twice : (s : List ℕ) → IsWords s → swap_endian_words (swap_endian_words s) ≡ s
unfolding swap_endian_words IsWords
swap_endian_words_twice [] h = refl
swap_endian_words_twice (a ∷ b ∷ c ∷ d ∷ s) h =
    ap (λ r. a ∷ b ∷ c ∷ d ∷ r) (swap_endian_words_twice s h)
swap_endian_words_twice (a ∷ b ∷ c ∷ []) h = absurd h
swap_endian_words_twice (a ∷ b ∷ []) h = absurd h
swap_endian_words_twice (a ∷ []) h = absurd h
