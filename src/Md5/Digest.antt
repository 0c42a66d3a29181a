-- ===== src/Md5/Digest.antt =====
-- The digest of a message that is given in pieces, against the padded message of RFC 1321.
use ximg.Prelude.{
  ℕ, zero, suc, ◌+◌, ◌-◌, ◌*◌, ◌/◌, ◌%◌, ◌^◌, ◌<◌, ◌≤◌, List, [], ◌∷◌, ◌++◌, Bytes, length, take,
  replicate, All, ◌≡◌, refl, sym, ap, subst, ◌∙◌, arith, length-append, length-replicate,
  append_assoc, append-nil, nil_of_length, ap₂, bit_and,
}
use ximg.Prelude.Bits.{◌>>>◌}
use ximg.Prelude.Masks.{bit_and-63}
use ximg.Md5.{
  Abcd, Md5State, md5_init, initial, full_blocks, md5_append, md5_finish, word_bytes, pad,
}
use ximg.Md5.Blocks.{Holds}
use ximg.Md5.Count.{Counts}
use ximg.Md5.Stream.{Represents, md5_init-Represents, md5_append-Represents}

-- A one bit, zeros up to 8 bytes before a block's end, and the count of bits.
abbrev pub size_bytes : ℕ → Bytes
size_bytes n = word_bytes (n * 8 % 2 ^ 32) ++ word_bytes (n * 8 / 2 ^ 32 % 2 ^ 32)

abbrev pub padding : ℕ → Bytes
padding n = 0x80 ∷ replicate ((119 - n % 64) % 64) 0

abbrev pub padded : Bytes → Bytes
padded msg = msg ++ (padding (length msg) ++ size_bytes (length msg))

abbrev pub register_bytes : Abcd → Bytes
register_bytes r = word_bytes r.a ++ (word_bytes r.b ++ (word_bytes r.c ++ word_bytes r.d))

-- All blocks of the padded message, from the initial registers.
unfoldable pub digest : Bytes → Bytes
digest msg = register_bytes (full_blocks (length (padded msg) / 64) initial (padded msg))

length-padded : (msg : Bytes) → length (padded msg) % 64 ≡ 0
length-padded msg = omega (
  arith,
  length-append msg (padding (length msg) ++ size_bytes (length msg)),
  length-append (padding (length msg)) (size_bytes (length msg)),
  length-replicate {A = ℕ} ((119 - length msg % 64) % 64) 0,
)

take-replicate : (k n a : ℕ) → k ≤ n → take k (replicate n a) ≡ replicate k a
take-replicate zero n a h = refl
take-replicate (suc k) zero a h = absurd (omega arith)
take-replicate (suc k) (suc n) a h = ap (◌∷◌ a) (take-replicate k n a (omega arith))

-- The padding that `md5_finish` cuts from `pad`.
take-pad :
    (s : Md5State) (n : ℕ)
    → Counts s n
    → take (bit_and (55 + 2 ^ 32 - (s.count0 >>> 3)) 63 + 1) pad ≡ padding n
take-pad s n c =
    let k = (119 - n % 64) % 64 in
    let e : bit_and (55 + 2 ^ 32 - (s.count0 >>> 3)) 63 + 1 ≡ suc k =
      omega (arith, bit_and-63 (55 + 2 ^ 32 - s.count0 / 2 ^ 3), c.low) in
    rw e (ap (◌∷◌ 0x80) (take-replicate k 63 0 (omega arith)))

-- A message of whole blocks is all processed.
Holds-whole :
    (s : Md5State) (msg : Bytes)
    → Holds s msg
    → length msg % 64 ≡ 0
    → s.abcd ≡ full_blocks (length msg / 64) initial msg
Holds-whole s msg h e =
    let len = length-append h.full h.left in
    let none_left : h.left ≡ [] =
      nil_of_length h.left (omega (arith, ap length h.splits, len, h.whole, h.partial)) in
    let all_in : h.full ≡ msg =
      sym (append-nil h.full) ∙ sym (ap (◌++◌ h.full) none_left) ∙ sym h.splits in
    let n : h.blocks ≡ length msg / 64 = omega (arith, ap length all_in, h.whole) in
    h.digested ∙ ap₂ (λ (k : ℕ) (m : Bytes). full_blocks k initial m) n all_in

md5_finish-digest : (s : Md5State) (msg : Bytes) → Represents s msg → md5_finish s ≡ digest msg
unfolding md5_finish digest
md5_finish-digest s msg r =
    let n = length msg in
    let size = word_bytes s.count0 ++ word_bytes s.count1 in
    let size_ok : size ≡ size_bytes n =
      ap₂ (λ (lo hi : ℕ). word_bytes lo ++ word_bytes hi) r.counts.low r.counts.high in
    let r1 =
      md5_append-Represents s msg (padding n)
        (omega (arith, length-replicate {A = ℕ} ((119 - n % 64) % 64) 0)) r in
    let r2 =
      md5_append-Represents (md5_append s (padding n)) (msg ++ padding n) size (omega arith) r1 in
    let whole : (msg ++ padding n) ++ size ≡ padded msg =
      append_assoc msg (padding n) size ∙ ap (λ (z : Bytes). msg ++ (padding n ++ z)) size_ok in
    let final = subst (Holds (md5_append (md5_append s (padding n)) size)) whole r2.blocks in
    rw (take-pad s n r.counts)
      (ap register_bytes (Holds-whole _ (padded msg) final (length-padded msg)))

-- `md5_append` once for each piece.
abbrev pub feed : Md5State → List Bytes → Md5State
feed s [] = s
feed s (p ∷ ps) = feed (md5_append s p) ps

abbrev pub joined : List Bytes → Bytes
joined [] = []
joined (p ∷ ps) = p ++ joined ps

feed-Represents :
    (s : Md5State) (msg : Bytes) (ps : List Bytes)
    → All (λ p. length p < 2 ^ 28) ps
    → Represents s msg
    → Represents (feed s ps) (msg ++ joined ps)
feed-Represents s msg [] h r = subst (Represents s) (sym (append-nil msg)) r
feed-Represents s msg (p ∷ ps) h r =
    subst (Represents (feed (md5_append s p) ps)) (append_assoc msg p (joined ps))
      (feed-Represents (md5_append s p) (msg ++ p) ps h.1 (md5_append-Represents s msg p h.0 r))

-- However a message is cut into pieces of less than 2 ^ 28 bytes, `md5_init`, `md5_append` for each
-- piece and `md5_finish` give the digest of the whole message: all blocks of its padded form, from
-- the initial registers. What the buffer held before does not matter.
pub md5_finish-feed :
    (buf : Bytes) (ps : List Bytes)
    → length buf ≡ 64
    → All (λ p. length p < 2 ^ 28) ps
    → md5_finish (feed (md5_init buf) ps) ≡ digest (joined ps)
md5_finish-feed buf ps room h =
    md5_finish-digest (feed (md5_init buf) ps) (joined ps)
      (feed-Represents (md5_init buf) [] ps h (md5_init-Represents buf room))
