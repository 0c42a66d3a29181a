-- ===== src/Access/Octets.antt =====
-- `zimg_inet_addr` on a dotted address, and `zimg_atoi` on a number, as a printer writes them.
use ximg.Prelude.{
  ℕ, ◌+◌, ◌-◌, ◌*◌, ◌/◌, ◌%◌, ◌^◌, ◌<◌, true, [], ◌∷◌, ◌++◌, Bytes, length, none, some, ltb,
  if◌then◌else◌, lt→ltb, ◌≡◌, refl, sym, ap, ◌∙◌, arith, Bool-cases, Option-cases, append-nil, inl,
  inr,
}
use ximg.Prelude.Bits.{u32, ◌<<<◌}
use ximg.Access.{is_digit, atoi_loop, zimg_atoi, inet_loop, zimg_inet_addr, htonl, zimg_strlchr}

-- A number below 1000 in decimal, with no zeros in front.
unfoldable pub decimal : ℕ → Bytes
decimal v =
    if ltb v 10
    then (b'0' + v) ∷ []
    else if ltb v 100
    then (b'0' + v / 10) ∷ (b'0' + v % 10) ∷ []
    else (b'0' + v / 100) ∷ (b'0' + v / 10 % 10) ∷ (b'0' + v % 10) ∷ []

-- An address in the order of its octets, in host byte order.
abbrev pub dotted : ℕ → ℕ → ℕ → ℕ → Bytes
dotted a b c d = decimal a ++ (b'.' ∷ (decimal b ++ (b'.' ∷ (decimal c ++ (b'.' ∷ decimal d)))))

abbrev pub host_addr : ℕ → ℕ → ℕ → ℕ → ℕ
host_addr a b c d = a * 0x100_0000 + b * 0x1_0000 + c * 0x100 + d

digit_step :
    (v addr octet n : ℕ) (rest : Bytes)
    → v < 10
    → inet_loop addr octet n ((b'0' + v) ∷ rest) ≡ inet_loop addr (u32 (octet * 10 + v)) n rest
unfolding inet_loop
digit_step v addr octet n rest h =
    let e : is_digit (b'0' + v) ≡ true = ground arith in
    let sub : b'0' + v - b'0' ≡ v = omega arith in rw (e, sub)

inet_loop-decimal :
    (v addr n : ℕ) (rest : Bytes)
    → v < 256
    → inet_loop addr 0 n (decimal v ++ rest) ≡ inet_loop addr v n rest
unfolding decimal
inet_loop-decimal v addr n rest h = elim (Bool-cases (ltb v 10)) [
  | inl one ↦ rw one (
      digit_step v addr 0 n rest (ground arith)
      ∙ ap (λ (o : ℕ). inet_loop addr o n rest) (omega arith))
  | inr wide ↦ elim (Bool-cases (ltb v 100)) [
    | inl two ↦
        rw (wide, two)
          (digit_step (v / 10) addr 0 n _ (ground arith)
            ∙ digit_step (v % 10) addr _ n rest (omega arith)
            ∙ ap (λ (o : ℕ). inet_loop addr o n rest) (omega arith))
    | inr three ↦
        rw (wide, three)
          (digit_step (v / 100) addr 0 n _ (omega arith)
            ∙ digit_step (v / 10 % 10) addr _ n _ (omega arith)
            ∙ digit_step (v % 10) addr _ n rest (omega arith)
            ∙ ap (λ (o : ℕ). inet_loop addr o n rest) (omega arith))
  ]
]

dot_step :
    (addr octet n : ℕ) (rest : Bytes)
    → octet < 256
    → inet_loop addr octet n (b'.' ∷ rest)
      ≡ inet_loop (u32 ((addr <<< 8) + octet)) 0 (u32 (n + 1)) rest
unfolding inet_loop
dot_step addr octet n rest h = rw (lt→ltb octet 256 h)

octet_dot :
    (v addr n : ℕ) (rest : Bytes)
    → v < 256
    → inet_loop addr 0 n (decimal v ++ (b'.' ∷ rest))
      ≡ inet_loop (u32 ((addr <<< 8) + v)) 0 (u32 (n + 1)) rest
octet_dot v addr n rest h = inet_loop-decimal v addr n (b'.' ∷ rest) h ∙ dot_step addr v n rest h

last_octet :
    (v addr : ℕ) → v < 256 → inet_loop addr 0 3 (decimal v) ≡ htonl (u32 ((addr <<< 8) + v))
last_octet v addr h =
    ap (inet_loop addr 0 3) (sym (append-nil (decimal v))) ∙ inet_loop-decimal v addr 3 [] h ∙ close
  where
    close : inet_loop addr v 3 [] ≡ htonl (u32 ((addr <<< 8) + v))
    close = unfold inet_loop in rw (lt→ltb v 256 h)

-- A dotted address of four octets is read back, in network byte order.
pub zimg_inet_addr-dotted :
    (a b c d : ℕ)
    → (a < 256) × (b < 256) × (c < 256) × (d < 256)
    → zimg_inet_addr (dotted a b c d) ≡ htonl (host_addr a b c d)
unfolding zimg_inet_addr
zimg_inet_addr-dotted a b c d (ha, hb, hc, hd) =
    octet_dot a 0 0 _ ha
    ∙ octet_dot b _ _ _ hb
    ∙ octet_dot c _ _ _ hc
    ∙ last_octet d _ hd
    ∙ ap htonl (omega arith)

atoi_digit :
    (v value : ℕ) (rest : Bytes)
    → v < 10
    → atoi_loop value ((b'0' + v) ∷ rest) ≡ atoi_loop (u32 (value * 10 + v)) rest
unfolding atoi_loop
atoi_digit v value rest h =
    let e : is_digit (b'0' + v) ≡ true = ground arith in
    let sub : b'0' + v - b'0' ≡ v = omega arith in rw (e, sub)

atoi_end : (value v : ℕ) → value ≡ v → v < 2 ^ 31 → atoi_loop value [] ≡ some v
unfolding atoi_loop
atoi_end value v e h = rw (e, lt→ltb v (2 ^ 31) h)

-- A number of at most two digits is read back.
pub zimg_atoi-decimal : (v : ℕ) → v < 100 → zimg_atoi (decimal v) ≡ some v
unfolding zimg_atoi decimal
zimg_atoi-decimal v h = elim (Bool-cases (ltb v 10)) [
  | inl one ↦ rw one (atoi_digit v 0 [] (ground arith) ∙ atoi_end _ v (omega arith) (omega arith))
  | inr wide ↦
      let two : ltb v 100 ≡ true = lt→ltb v 100 h in
      rw (wide, two)
        (atoi_digit (v / 10) 0 ((b'0' + v % 10) ∷ []) (omega arith)
          ∙ atoi_digit (v % 10) (u32 (0 * 10 + v / 10)) [] (omega arith)
          ∙ atoi_end _ v (omega arith) (omega arith))
]

abbrev NoSlash : Bytes → Type 0
NoSlash s = zimg_strlchr s b'/' ≡ none

NoSlash-append : (xs ys : Bytes) → NoSlash xs → NoSlash ys → NoSlash (xs ++ ys)
unfolding zimg_strlchr
NoSlash-append [] ys hx hy = hy
NoSlash-append (x ∷ xs) ys hx hy = elim (Option-cases (zimg_strlchr xs b'/')) [
  | inl e ↦ ground (arith, NoSlash-append xs ys e hy)
  | inr (i, e) ↦ ground arith
]

NoSlash-decimal : (v : ℕ) → v < 256 → NoSlash (decimal v)
unfolding zimg_strlchr decimal
NoSlash-decimal v h = ground arith

NoSlash-dot : (s : Bytes) → NoSlash s → NoSlash (b'.' ∷ s)
unfolding zimg_strlchr
NoSlash-dot s h = rw h

pub NoSlash-dotted :
    (a b c d : ℕ)
    → (a < 256) × (b < 256) × (c < 256) × (d < 256)
    → zimg_strlchr (dotted a b c d) b'/' ≡ none
NoSlash-dotted a b c d (ha, hb, hc, hd) = NoSlash-append (decimal a) _ (NoSlash-decimal a ha) (
    NoSlash-dot _ (
      NoSlash-append (decimal b) _ (NoSlash-decimal b hb) (
        NoSlash-dot _ (
          NoSlash-append (decimal c) _ (NoSlash-decimal c hc)
            (NoSlash-dot _ (NoSlash-decimal d hd))))))

-- The slash behind a text that has none.
pub strlchr-slash :
    (xs ys : Bytes)
    → zimg_strlchr xs b'/' ≡ none
    → zimg_strlchr (xs ++ (b'/' ∷ ys)) b'/' ≡ some (length xs)
unfolding zimg_strlchr
strlchr-slash [] ys h = refl
strlchr-slash (x ∷ xs) ys h = elim (Option-cases (zimg_strlchr xs b'/')) [
  | inl e ↦ ground (arith, strlchr-slash xs ys e)
  | inr (i, e) ↦ ground arith
]
