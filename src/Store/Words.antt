-- ===== src/Store/Words.antt =====
-- The numbers that the database keeps as bytes: `encodeUint64` and `decodeUint64` of
-- internal/coordinator/database.go.
use native.Mathlib.Nat.{div-add-mod, div-div-eq-div-mul, mod-lt, mul-le-mul_right}
use workitem.Common.{
  ℕ, zero, suc, ◌+◌, ◌*◌, ◌/◌, ◌%◌, ◌^◌, ◌≤◌, ◌<◌, ◌≡◌, ◌∙◌, refl, sym, ap, ap, Bool, true, false,
  [], ◌∷◌, length, ltb, ◌==◌, if◌then◌else◌, inl, inr, Bool-cases, ltb→lt, ltb→le, lt→ltb, arith,
}
use workitem.Content.Bytes.{Bytes}

-- How many numbers some bytes can be.
unfoldable pub byte_room : ℕ → ℕ
byte_room zero = 1
byte_room (suc k) = byte_room k * 256

-- `binary.BigEndian.PutUint64`, for the last bytes of the eight: `byte(v >> (8 * k))`.
unfoldable pub big_endian : ℕ → ℕ → Bytes
big_endian zero n = []
big_endian (suc k) n = n / byte_room k % 256 ∷ big_endian k n

unfoldable pub encode_uint64 : ℕ → Bytes
encode_uint64 n = big_endian 8 n

-- `binary.BigEndian.Uint64`, for the bytes behind those read.
unfoldable pub from_big_endian : ℕ → Bytes → ℕ
from_big_endian n [] = n
from_big_endian n (b ∷ bs) = from_big_endian (n * 256 + b) bs

unfoldable pub decode_uint64 : Bytes → ℕ
unfolding from_big_endian
decode_uint64 value = if length value == 8 then from_big_endian 0 value else 0

-- The order of the bytes, in which a bucket keeps its keys.
unfoldable pub bytes_before : Bytes → Bytes → Bool
bytes_before [] [] = false
bytes_before [] (c ∷ t) = true
bytes_before (b ∷ s) [] = false
bytes_before (b ∷ s) (c ∷ t) =
    let rest = bytes_before s t in if ltb b c then true else if ltb c b then false else rest

pub room_positive : (k : ℕ) → 0 < byte_room k
unfolding byte_room
room_positive zero = omega arith
room_positive (suc k) = omega (arith, room_positive k)

-- The highest byte and the others.
mod-byte_room :
    (k n : ℕ) → n % byte_room (suc k) ≡ n / byte_room k % 256 * byte_room k + n % byte_room k
unfolding byte_room
mod-byte_room k n =
    let r = byte_room k in
    let q = n / r in
    let whole = div-add-mod n (r * 256) in
    let low = div-add-mod n r in
    let high : n / (r * 256) ≡ q / 256 = sym (div-div-eq-div-mul n r 256) in
    let parts : q ≡ 256 * (q / 256) + q % 256 = omega arith in
    let scaled : r * q ≡ r * (256 * (q / 256) + q % 256) = ap (λ x. r * x) parts in
    let tops : r * 256 * (n / (r * 256)) ≡ r * 256 * (q / 256) = ap (λ x. r * 256 * x) high in
    omega (arith, whole, low, scaled, tops)

decode-big_endian :
    (k n acc : ℕ) → from_big_endian acc (big_endian k n) ≡ acc * byte_room k + n % byte_room k
unfolding from_big_endian big_endian byte_room
decode-big_endian zero n acc = omega arith
decode-big_endian (suc k) n acc =
    decode-big_endian k n (acc * 256 + n / byte_room k % 256) ∙ omega (arith, mod-byte_room k n)

length-big_endian : (k n : ℕ) → length (big_endian k n) ≡ k
unfolding big_endian
length-big_endian zero n = refl
length-big_endian (suc k) n = omega (arith, length-big_endian k n)

decode_uint64-read :
    (value : Bytes) → length value ≡ 8 → decode_uint64 value ≡ from_big_endian 0 value
unfolding decode_uint64
decode_uint64-read value eight = rw eight refl

-- A number of 64 bits is read back.
pub decode-encode_uint64 : (n : ℕ) → n < 2 ^ 64 → decode_uint64 (encode_uint64 n) ≡ n
unfolding encode_uint64 byte_room
decode-encode_uint64 n small =
    decode_uint64-read (big_endian 8 n) (length-big_endian 8 n)
    ∙ decode-big_endian 8 n 0
    ∙ omega (arith, small)

high_first : (b c k m n : ℕ) → m < k → b < c → b * k + m < c * k + n
high_first b c k m n hm lt =
    let scaled : (b + 1) * k ≤ c * k = mul-le-mul_right k (omega (arith, lt)) in
    omega (arith, hm, scaled)

-- Two numbers are compared by their high parts first.
ltb-total :
    (b c k m n : ℕ)
    → m < k
    → n < k
    → (if ltb b c then true else if ltb c b then false else ltb m n) ≡ ltb (b * k + m) (c * k + n)
ltb-total b c k m n hm hn = elim (Bool-cases (ltb b c)) [
  | inl e ↦ rw e (sym (lt→ltb _ _ (high_first b c k m n hm (ltb→lt b c e))))
  | inr e ↦ elim (Bool-cases (ltb c b)) [
    | inl f ↦ let above = high_first c b k n m hn (ltb→lt c b f) in rw (e, f) (ground arith)
    | inr f ↦
        let same : b ≡ c = omega (arith, ltb→le b c e, ltb→le c b f) in
        rw (e, f, same) (ground arith)
  ]
]

big_endian-before :
    (k m n : ℕ)
    → bytes_before (big_endian k m) (big_endian k n) ≡ ltb (m % byte_room k) (n % byte_room k)
unfolding bytes_before big_endian byte_room
big_endian-before zero m n = ground arith
big_endian-before (suc k) m n =
    rw (big_endian-before k m n, mod-byte_room k m, mod-byte_room k n)
      (ltb-total (m / byte_room k % 256) (n / byte_room k % 256) (byte_room k) (m % byte_room k)
        (n % byte_room k) (mod-lt m (room_positive k)) (mod-lt n (room_positive k)))

-- The bytes of two numbers of 64 bits come in the order of the numbers.
pub encode_uint64-before :
    (m n : ℕ) → m < 2 ^ 64 → n < 2 ^ 64 → bytes_before (encode_uint64 m) (encode_uint64 n) ≡ ltb m n
unfolding encode_uint64 byte_room
encode_uint64-before m n hm hn =
    let em : m % byte_room 8 ≡ m = omega (arith, hm) in
    let en : n % byte_room 8 ≡ n = omega (arith, hn) in big_endian-before 8 m n ∙ rw (em, en) refl
