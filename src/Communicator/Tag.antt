-- ===== src/Communicator/Tag.antt =====
-- communicator.cpp: `get_comm_tag`, by which UCX tells the messages of the ranks apart.
use Prim.Native.Nat.{bit_or}
use distributed_join.Prelude.{
  ℕ, ◌+◌, ◌-◌, ◌*◌, ◌%◌, ◌^◌, ◌<◌, ◌≡◌, sym, ap, ap₂, ◌∙◌, arith, ltb, if◌then◌else◌, inl, inr,
  Bool-cases, if_true, if_false,
}
use distributed_join.Prelude.Bits.{bit_or-shifted, zero-bit_or}

-- A cast of an `int`, given as its 32 bits, to `uint64_t`.
abbrev pub sign_extended : ℕ → ℕ
sign_extended n = if ltb n (2 ^ 31) then n else n + (2 ^ 64 - 2 ^ 32)

-- Both arguments are `int`s.
unfoldable pub get_comm_tag : ℕ → ℕ → ℕ
get_comm_tag user_tag source_rank =
    let comm_tag = bit_or 0 (sign_extended user_tag * 2 ^ 32 % 2 ^ 64) in
    bit_or comm_tag (sign_extended source_rank)

shifted_lem : (n : ℕ) → n < 2 ^ 32 → sign_extended n * 2 ^ 32 % 2 ^ 64 ≡ n * 2 ^ 32
shifted_lem n h = elim (Bool-cases (ltb n (2 ^ 31))) [
  | inl small ↦ ap (λ v. v * 2 ^ 32 % 2 ^ 64) (if_true _ _ small) ∙ omega arith
  | inr large ↦ ap (λ v. v * 2 ^ 32 % 2 ^ 64) (if_false _ _ large) ∙ omega arith
]

-- The tag of the user in the upper 32 bits, and the rank, which is not negative, in the lower ones.
pub get_comm_tag_lem :
    (user_tag source_rank : ℕ)
    → user_tag < 2 ^ 32
    → source_rank < 2 ^ 31
    → get_comm_tag user_tag source_rank ≡ user_tag * 2 ^ 32 + source_rank
unfolding get_comm_tag
get_comm_tag_lem user_tag source_rank h p =
    ap₂ bit_or (zero-bit_or _ ∙ shifted_lem user_tag h) (
      if_true {b = ltb source_rank (2 ^ 31)} source_rank (source_rank + (2 ^ 64 - 2 ^ 32))
        (ground arith))
    ∙ bit_or-shifted 32 user_tag source_rank (omega arith)

-- Different tags of the user or different ranks have different tags, also where the tag of the
-- user is negative.
pub get_comm_tag_injective :
    (user_tag source_rank user_tag' source_rank' : ℕ)
    → user_tag < 2 ^ 32
    → source_rank < 2 ^ 31
    → user_tag' < 2 ^ 32
    → source_rank' < 2 ^ 31
    → get_comm_tag user_tag source_rank ≡ get_comm_tag user_tag' source_rank'
    → (user_tag ≡ user_tag') × (source_rank ≡ source_rank')
get_comm_tag_injective u s u' s' hu hs hu' hs' e =
    let both : u * 2 ^ 32 + s ≡ u' * 2 ^ 32 + s' =
      sym (get_comm_tag_lem u s hu hs) ∙ e ∙ get_comm_tag_lem u' s' hu' hs' in
    (omega arith, omega arith)
