-- ===== src/Access/Network.antt =====
-- The rule of a network `a.b.c.d/shift` covers the addresses that share the first `shift` bits.
use ximg.Prelude.{
  ℕ, zero, suc, ◌+◌, ◌-◌, ◌*◌, ◌/◌, ◌%◌, ◌^◌, ◌<◌, ◌≤◌, true, false, ◌&&◌, ◌||◌, [], ◌∷◌, ◌++◌,
  Bytes, length, drop, none, some, ltb, ◌==◌, ◌≡◌, refl, sym, ap, ap₂, ◌∙◌, arith, Bool-cases, inl,
  inr, ==_iff, bit_and, take-append_self,
}
use ximg.Prelude.Bits.{all_below, all_below_sound, u32, ◌<<<◌}
use ximg.Prelude.Masks.{bit_and-cut, bit_and_ones, bit_and-zero, bit_and-le}
use native.Mathlib.Nat.{one-le-pow, mod-lt, div-lt_iff_lt-mul, div-add-mod', mul-div_cancel}
use ximg.Access.{
  Rule, htonl, inaddr_none, zimg_strlchr, zimg_inet_addr, zimg_atoi, shift_mask, stor_mask, stor,
}
use ximg.Access.Octets.{
  decimal, dotted, host_addr, zimg_inet_addr-dotted, zimg_atoi-decimal, NoSlash-dotted,
  strlchr-slash,
}
use ximg.Access.Decision.{covers}

htonl-htonl : (x : ℕ) → x < 2 ^ 32 → htonl (htonl x) ≡ x
unfolding htonl
htonl-htonl x h = omega arith

htonl-lt : (x : ℕ) → htonl x < 2 ^ 32
unfolding htonl
htonl-lt x = omega arith

-- Four bytes in two orders.
abbrev word : ℕ → ℕ → ℕ → ℕ → ℕ
word p q r s = ((p * 2 ^ 8 + q) * 2 ^ 8 + r) * 2 ^ 8 + s

abbrev AreBytes : ℕ → ℕ → ℕ → ℕ → Type 0
AreBytes p q r s = (p < 256) × (q < 256) × (r < 256) × (s < 256)

htonl-word : (p q r s : ℕ) → AreBytes p q r s → htonl (word p q r s) ≡ word s r q p
unfolding htonl
htonl-word p q r s h = omega arith

bit_and-word :
    (p q r s p' q' r' s' : ℕ)
    → AreBytes p q r s
    → AreBytes p' q' r' s'
    → bit_and (word p q r s) (word p' q' r' s')
      ≡ word (bit_and p p') (bit_and q q') (bit_and r r') (bit_and s s')
bit_and-word p q r s p' q' r' s' h h' = rw (
  bit_and-cut 8 ((p * 2 ^ 8 + q) * 2 ^ 8 + r) s ((p' * 2 ^ 8 + q') * 2 ^ 8 + r') s' (omega arith)
      (omega arith),
  bit_and-cut 8 (p * 2 ^ 8 + q) r (p' * 2 ^ 8 + q') r' (omega arith) (omega arith),
  bit_and-cut 8 p q p' q' (omega arith) (omega arith),
)

-- A word is made of its bytes.
word_of_bytes :
    (x : ℕ)
    → x < 2 ^ 32
    → word (x / 0x100_0000) (x / 0x1_0000 % 256) (x / 0x100 % 256) (x % 256) ≡ x
word_of_bytes x h = omega arith

-- `&` does not mind the byte order.
htonl-bit_and-word :
    (p q r s p' q' r' s' : ℕ)
    → AreBytes p q r s
    → AreBytes p' q' r' s'
    → bit_and (htonl (word p q r s)) (htonl (word p' q' r' s'))
      ≡ htonl (bit_and (word p q r s) (word p' q' r' s'))
htonl-bit_and-word p q r s p' q' r' s' h h' =
    let hs : AreBytes (bit_and p p') (bit_and q q') (bit_and r r') (bit_and s s') =
      omega (arith, bit_and-le p p', bit_and-le q q', bit_and-le r r', bit_and-le s s') in
    rw (
      htonl-word p q r s h,
      htonl-word p' q' r' s' h',
      bit_and-word s r q p s' r' q' p' (omega arith) (omega arith),
      bit_and-word p q r s p' q' r' s' h h',
      htonl-word (bit_and p p') (bit_and q q') (bit_and r r') (bit_and s s') hs,
    )

htonl-bit_and :
    (x m : ℕ) → x < 2 ^ 32 → m < 2 ^ 32 → bit_and (htonl x) (htonl m) ≡ htonl (bit_and x m)
htonl-bit_and x m hx hm =
    let both =
      htonl-bit_and-word (x / 0x100_0000) (x / 0x1_0000 % 256) (x / 0x100 % 256) (x % 256)
        (m / 0x100_0000) (m / 0x1_0000 % 256) (m / 0x100 % 256) (m % 256) (omega arith)
        (omega arith) in
    rw (word_of_bytes x hx, word_of_bytes m hm) at both

mask_table :
    all_below 33 (λ s.
      (u32 (0xffff_ffff <<< (32 - s)) == (2 ^ s - 1) * 2 ^ (32 - s) || s == 0)
      && (2 ^ s * 2 ^ (32 - s) == 2 ^ 32))
    ≡ true
unfolding all_below
mask_table = refl

record IsPrefixMask (shift : ℕ) : Type 0 where
  value : u32 (0xffff_ffff <<< (32 - shift)) ≡ (2 ^ shift - 1) * 2 ^ (32 - shift)
  covers_word : 2 ^ shift * 2 ^ (32 - shift) ≡ 2 ^ 32

prefix_mask : (shift : ℕ) → 0 < shift → shift ≤ 32 → IsPrefixMask shift
prefix_mask shift pos le =
    let row = all_below_sound 33 _ shift mask_table (omega arith) in
    record { value = ground (arith, row); covers_word = ground (arith, row) }

-- The mask in host byte order keeps the first `shift` bits.
bit_and_prefix :
    (shift x : ℕ)
    → 0 < shift
    → shift ≤ 32
    → x < 2 ^ 32
    → bit_and x (u32 (0xffff_ffff <<< (32 - shift))) ≡ x / 2 ^ (32 - shift) * 2 ^ (32 - shift)
bit_and_prefix shift x pos le h =
    let m = prefix_mask shift pos le in
    let p = 2 ^ (32 - shift) in
    let one : 0 < p = one-le-pow (32 - shift) 2 (omega arith) in
    let small : x % p < p = mod-lt x one in
    let high : x / p < 2 ^ shift = (div-lt_iff_lt-mul one).1 (rw (m.covers_word) h) in
    let ones : (2 ^ shift - 1) * p ≡ (2 ^ shift - 1) * p + 0 = omega arith in
    rw (m.value) (
      ap₂ bit_and (sym (div-add-mod' x p)) ones
      ∙ bit_and-cut (32 - shift) (x / p) (x % p) (2 ^ shift - 1) 0 small one
      ∙ ap₂ (λ (u v : ℕ). u * p + v) (bit_and_ones shift (x / p) high) (bit_and-zero (x % p))
      ∙ omega arith)

htonl-zero : htonl 0 ≡ 0
unfolding htonl
htonl-zero = refl

-- The address of a host under the mask of a rule.
masked_addr :
    (shift x : ℕ)
    → shift ≤ 32
    → x < 2 ^ 32
    → bit_and (htonl x) (shift_mask shift) ≡ htonl (x / 2 ^ (32 - shift) * 2 ^ (32 - shift))
unfolding shift_mask
masked_addr zero x le h =
    let e : x / 2 ^ (32 - 0) * 2 ^ (32 - 0) ≡ 0 = omega arith in
    bit_and-zero (htonl x) ∙ sym (ap htonl e ∙ htonl-zero)
masked_addr (suc s) x le h =
    let pos : (suc s == 0) ≡ false = ground arith in
    rw pos (
      htonl-bit_and x (u32 (0xffff_ffff <<< (32 - suc s))) h (omega arith)
      ∙ ap htonl (bit_and_prefix (suc s) x (omega arith) le h))

-- Two prefixes that are equal in network byte order.
same_prefix :
    (shift x y : ℕ)
    → x < 2 ^ 32
    → y < 2 ^ 32
    → let p = 2 ^ (32 - shift) in (htonl (x / p * p) == htonl (y / p * p)) ≡ (x / p == y / p)
same_prefix shift x y hx hy =
    let p = 2 ^ (32 - shift) in
    let one : 0 < p = one-le-pow (32 - shift) 2 (omega arith) in
    let lx : x / p * p < 2 ^ 32 = omega (arith, div-add-mod' x p) in
    let ly : y / p * p < 2 ^ 32 = omega (arith, div-add-mod' y p) in
    elim (Bool-cases (x / p == y / p)) [
      | inl e ↦ rw ((==_iff (x / p) (y / p)).0 e) (ground arith)
      | inr e ↦ elim (Bool-cases (htonl (x / p * p) == htonl (y / p * p))) [
        | inl same ↦
            let eq : x / p * p ≡ y / p * p =
              sym (htonl-htonl (x / p * p) lx)
              ∙ ap htonl ((==_iff _ _).0 same)
              ∙ htonl-htonl (y / p * p) ly in
            let quotient : x / p ≡ y / p =
              sym (mul-div_cancel (x / p) one)
              ∙ ap (λ (t : ℕ). t / p) eq
              ∙ mul-div_cancel (y / p) one in
            absurd (ground (arith, quotient))
        | inr other ↦ rw (e, other)
      ]
    ]

htonl-ne-none : (x : ℕ) → x < 2 ^ 32 - 1 → (htonl x == inaddr_none) ≡ false
htonl-ne-none x h = elim (Bool-cases (htonl x == inaddr_none)) [
  | inl e ↦
      let back : x ≡ htonl inaddr_none =
        sym (htonl-htonl x (omega arith)) ∙ ap htonl ((==_iff _ _).0 e) in
      absurd (omega (arith, back, htonl-none))
  | inr e ↦ e
]
  where
    htonl-none : htonl inaddr_none ≡ 2 ^ 32 - 1
    htonl-none = unfold htonl in refl

abbrev pub network_text : ℕ → ℕ → ℕ → ℕ → ℕ → Bytes
network_text a b c d shift = dotted a b c d ++ (b'/' ∷ decimal shift)

stor-slash :
    (text y : Bytes) (rule : Rule)
    → zimg_strlchr text b'/' ≡ none
    → (zimg_inet_addr text == inaddr_none) ≡ false
    → stor (text ++ (b'/' ∷ y)) rule
      ≡ stor_mask (text ++ (b'/' ∷ y)) (some (length text)) (zimg_inet_addr text) rule
unfolding stor
stor-slash text y rule no_slash valid =
    rw (strlchr-slash text y no_slash, take-append_self (length text) text (b'/' ∷ y) refl, valid)

stor_mask-shift :
    (text : Bytes) (i addr shift : ℕ) (rule : Rule)
    → zimg_atoi (drop (i + 1) text) ≡ some shift
    → shift ≤ 32
    → stor_mask text (some i) addr rule
      ≡ some (record rule { addr = bit_and addr (shift_mask shift); mask = shift_mask shift })
unfolding stor_mask
stor_mask-shift text i addr shift rule e le =
    let small : ltb 32 shift ≡ false = ground arith in
    rw (e, small)
      (elim (Bool-cases (addr == bit_and addr (shift_mask shift))) [
        | inl same ↦ rw same (
            ap (λ (x : ℕ). some (record rule { addr = x; mask = shift_mask shift }))
              ((==_iff _ _).0 same))
        | inr other ↦ rw other
      ])

-- `stor` on a network text: the masked address and the mask.
stor-network_text :
    (a b c d shift : ℕ) (rule : Rule)
    → (a < 256) × (b < 256) × (c < 256) × (d < 256)
    → host_addr a b c d < 2 ^ 32 - 1
    → shift ≤ 32
    → stor (network_text a b c d shift) rule
      ≡ some (record rule {
        addr = bit_and (htonl (host_addr a b c d)) (shift_mask shift);
        mask = shift_mask shift;
      })
stor-network_text a b c d shift rule octets valid le =
    let text = dotted a b c d in
    let addr = zimg_inet_addr-dotted a b c d octets in
    let good : (zimg_inet_addr text == inaddr_none) ≡ false =
      rw addr (htonl-ne-none (host_addr a b c d) valid) in
    let tail : drop (length text + 1) (text ++ (b'/' ∷ decimal shift)) ≡ decimal shift =
      drop-next text (decimal shift) in
    stor-slash text (decimal shift) rule (NoSlash-dotted a b c d octets) good
    ∙ stor_mask-shift _ (length text) (zimg_inet_addr text) shift rule
        (rw (tail, zimg_atoi-decimal shift (omega arith))) le
    ∙ ap
        (λ (x : ℕ).
          some (record rule { addr = bit_and x (shift_mask shift); mask = shift_mask shift }))
        addr
  where
    drop-next : (x y : Bytes) → drop (length x + 1) (x ++ (b'/' ∷ y)) ≡ y
    drop-next [] y = refl
    drop-next (c ∷ x) y =
        let e : suc (length x) + 1 ≡ suc (length x + 1) = omega arith in rw e (drop-next x y)

-- A network text of four octets and a prefix of at most 32 bits, other than one of the broadcast
-- address 255.255.255.255, is read as a rule that keeps the mode, and that covers a host address, in
-- network byte order, exactly if its first `shift` bits are those of the network.
pub stor-covers :
    (a b c d shift h : ℕ) (rule : Rule)
    → (a < 256) × (b < 256) × (c < 256) × (d < 256)
    → host_addr a b c d < 2 ^ 32 - 1
    → shift ≤ 32
    → h < 2 ^ 32
    → (r : Rule) × (stor (network_text a b c d shift) rule ≡ some r)
      × (r.deny ≡ rule.deny)
      × (covers r (htonl h) ≡ (h / 2 ^ (32 - shift) == host_addr a b c d / 2 ^ (32 - shift)))
stor-covers a b c d shift h rule octets valid le hh =
    let net = host_addr a b c d in
    (
      record rule { addr = bit_and (htonl net) (shift_mask shift); mask = shift_mask shift },
      stor-network_text a b c d shift rule octets valid le,
      refl,
      rw (masked_addr shift h le hh, masked_addr shift net le (omega arith))
          (same_prefix shift h net hh (omega arith)),
    )
