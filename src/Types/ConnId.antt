-- ===== src/Types/ConnId.antt =====
-- GenConnId and the functions that take a connection id apart (pkg/authentication/types.go).
use Prim.Native.Nat.{bit_and}
use dsoftbus_go.Base.{ℕ, ◌+◌, ◌*◌, ◌/◌, ◌%◌, ◌^◌, ◌<◌, ◌≡◌, ap, ◌∙◌, arith}
use dsoftbus_go.Base.Int.{
  ℤ, pos, negsuc, uint32, uint64, int32, IsInt32, uint32-lt, uint64-lt, int32-uint32,
}
use dsoftbus_go.Base.Bits.{bit_and_low, bit_and_high, bit_or_join}
use dsoftbus_go.Types.{gen_conn_id, get_conn_type, get_conn_id, get_fd}

low_word : (x : ℕ) → bit_and x 0xFFFFFFFF ≡ x % 2 ^ 32
low_word x = bit_and_low 32 x

high_word : (x : ℕ) → bit_and x 0xFFFFFFFF00000000 ≡ x / 2 ^ 32 % 2 ^ 32 * 2 ^ 32
high_word x = bit_and_high 32 x 0xFFFFFFFF ∙ ap (λ (t : ℕ). t * 2 ^ 32) (low_word (x / 2 ^ 32))

uint64-mod : (x : ℤ) → uint64 x % 2 ^ 32 ≡ uint32 x
unfolding uint64 uint32
uint64-mod (pos n) = omega arith
uint64-mod (negsuc n) = omega arith

-- The id as a sum, which no carry crosses.
gen_conn_id-sum : (t fd : ℤ) → gen_conn_id t fd ≡ uint32 t * 2 ^ 32 + uint32 fd
unfolding gen_conn_id
gen_conn_id-sum t fd =
    rw (high_word (uint64 t * 2 ^ 32 % 2 ^ 64), low_word (uint64 fd))
      (rw
        (bit_or_join 32 (uint64 t * 2 ^ 32 % 2 ^ 64 / 2 ^ 32 % 2 ^ 32) (uint64 fd % 2 ^ 32)
          (omega arith))
        (omega (arith, uint64-mod t, uint64-mod fd, uint64-lt t)))

-- For a type and a descriptor that fit an int32: the connection id fits an uint64, and the type and the descriptor that it was made of are read back.
pub get-gen_conn_id :
    (t fd : ℤ)
    → IsInt32 t
    → IsInt32 fd
    → (gen_conn_id t fd < 2 ^ 64)
      × (get_conn_type (gen_conn_id t fd) ≡ t)
      × (get_fd (gen_conn_id t fd) ≡ fd)
      × (get_conn_id (gen_conn_id t fd) ≡ uint32 fd)
unfolding get_conn_type get_fd get_conn_id
get-gen_conn_id t fd ht hfd = rw (gen_conn_id-sum t fd) (
  omega (arith, uint32-lt t, uint32-lt fd),
  rw low_word (high_part ∙ int32-uint32 t ht),
  rw low_word (low_part ∙ int32-uint32 fd hfd),
  rw low_word (omega (arith, uint32-lt fd)),
)
  where
    high_part : int32 ((uint32 t * 2 ^ 32 + uint32 fd) / 2 ^ 32 % 2 ^ 32) ≡ int32 (uint32 t)
    high_part = ap int32 (omega (arith, uint32-lt t, uint32-lt fd))

    low_part : int32 ((uint32 t * 2 ^ 32 + uint32 fd) % 2 ^ 32) ≡ int32 (uint32 fd)
    low_part = ap int32 (omega (arith, uint32-lt fd))

-- Different types or descriptors, each an int32, have different connection ids.
pub gen_conn_id-injective :
    (t t' fd fd' : ℤ)
    → IsInt32 t
    → IsInt32 t'
    → IsInt32 fd
    → IsInt32 fd'
    → gen_conn_id t fd ≡ gen_conn_id t' fd'
    → (t ≡ t') × (fd ≡ fd')
gen_conn_id-injective t t' fd fd' ht ht' h h' e =
    let g = get-gen_conn_id t fd ht h in
    let g' = get-gen_conn_id t' fd' ht' h' in
    (cc (ap get_conn_type e, g.1, g'.1), cc (ap get_fd e, g.2, g'.2))

-- The descriptor is read back whatever the type.
pub get_fd-gen_conn_id : (t fd : ℤ) → IsInt32 fd → get_fd (gen_conn_id t fd) ≡ fd
unfolding get_fd
get_fd-gen_conn_id t fd h =
    rw (gen_conn_id-sum t fd)
      (rw low_word (ap int32 (omega (arith, uint32-lt fd)) ∙ int32-uint32 fd h))
