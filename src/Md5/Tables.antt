-- ===== src/Md5/Tables.antt =====
-- src/zmd5.c: the tables of `md5_process`, one list of operations for each round.
use ximg.Prelude.{ℕ, List, [], ◌∷◌, bit_xor}

-- `T_MASK ^ t`
abbrev pub masked : ℕ → ℕ
masked t = bit_xor 0xffff_ffff t

-- The arguments `k`, `s` and `Ti` of one `SET`. Its registers go round by one place each time.
pub data Op : Type 0 where
  op : ℕ → ℕ → ℕ → Op

-- The operations under `/* Round 1. */`: the word, the shift and the constant of each `SET`.
abbrev pub round1 : List Op
round1 =
    op 0 7 (masked 0x28955b87)
    ∷ op 1 12 (masked 0x173848a9)
    ∷ op 2 17 0x242070db
    ∷ op 3 22 (masked 0x3e423111)
    ∷ op 4 7 (masked 0x0a83f050)
    ∷ op 5 12 0x4787c62a
    ∷ op 6 17 (masked 0x57cfb9ec)
    ∷ op 7 22 (masked 0x02b96afe)
    ∷ op 8 7 0x698098d8
    ∷ op 9 12 (masked 0x74bb0850)
    ∷ op 10 17 (masked 0x0000a44e)
    ∷ op 11 22 (masked 0x76a32841)
    ∷ op 12 7 0x6b901122
    ∷ op 13 12 (masked 0x02678e6c)
    ∷ op 14 17 (masked 0x5986bc71)
    ∷ op 15 22 0x49b40821
    ∷ []

-- The operations under `/* Round 2. */`: the word, the shift and the constant of each `SET`.
abbrev pub round2 : List Op
round2 =
    op 1 5 (masked 0x09e1da9d)
    ∷ op 6 9 (masked 0x3fbf4cbf)
    ∷ op 11 14 0x265e5a51
    ∷ op 0 20 (masked 0x16493855)
    ∷ op 5 5 (masked 0x29d0efa2)
    ∷ op 10 9 0x02441453
    ∷ op 15 14 (masked 0x275e197e)
    ∷ op 4 20 (masked 0x182c0437)
    ∷ op 9 5 0x21e1cde6
    ∷ op 14 9 (masked 0x3cc8f829)
    ∷ op 3 14 (masked 0x0b2af278)
    ∷ op 8 20 0x455a14ed
    ∷ op 13 5 (masked 0x561c16fa)
    ∷ op 2 9 (masked 0x03105c07)
    ∷ op 7 14 0x676f02d9
    ∷ op 12 20 (masked 0x72d5b375)
    ∷ []

-- The operations under `/* Round 3. */`: the word, the shift and the constant of each `SET`.
abbrev pub round3 : List Op
round3 =
    op 5 4 (masked 0x0005c6bd)
    ∷ op 8 11 (masked 0x788e097e)
    ∷ op 11 16 0x6d9d6122
    ∷ op 14 23 (masked 0x021ac7f3)
    ∷ op 1 4 (masked 0x5b4115bb)
    ∷ op 4 11 0x4bdecfa9
    ∷ op 7 16 (masked 0x0944b49f)
    ∷ op 10 23 (masked 0x4140438f)
    ∷ op 13 4 0x289b7ec6
    ∷ op 0 11 (masked 0x155ed805)
    ∷ op 3 16 (masked 0x2b10cf7a)
    ∷ op 6 23 0x04881d05
    ∷ op 9 4 (masked 0x262b2fc6)
    ∷ op 12 11 (masked 0x1924661a)
    ∷ op 15 16 0x1fa27cf8
    ∷ op 2 23 (masked 0x3b53a99a)
    ∷ []

-- The operations under `/* Round 4. */`: the word, the shift and the constant of each `SET`.
abbrev pub round4 : List Op
round4 =
    op 0 6 (masked 0x0bd6ddbb)
    ∷ op 7 10 0x432aff97
    ∷ op 14 15 (masked 0x546bdc58)
    ∷ op 5 21 (masked 0x036c5fc6)
    ∷ op 12 6 0x655b59c3
    ∷ op 3 10 (masked 0x70f3336d)
    ∷ op 10 15 (masked 0x00100b82)
    ∷ op 1 21 (masked 0x7a7ba22e)
    ∷ op 8 6 0x6fa87e4f
    ∷ op 15 10 (masked 0x01d3191f)
    ∷ op 6 15 (masked 0x5cfebceb)
    ∷ op 13 21 0x4e0811a1
    ∷ op 4 6 (masked 0x08ac817d)
    ∷ op 11 10 (masked 0x42c50dca)
    ∷ op 2 15 0x2ad7d2bb
    ∷ op 9 21 (masked 0x14792c6e)
    ∷ []
