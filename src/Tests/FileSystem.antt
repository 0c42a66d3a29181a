-- ===== src/Tests/FileSystem.antt =====
-- Directories as a list of paths, and `mk_dirs` there.
use ximg.Prelude.{
  Bool, true, false, ◌||◌, List, [], ◌∷◌, Bytes, Option, none, some, if◌then◌else◌, codes, ◌≡◌, ◌⊎◌,
  refl, inl, inr, arith, Bool-cases,
}
use ximg.FileSystem.{
  System, Kind, regular, directory, make_level, make_at, mk_dirs_loop, with_slash, mk_dirs,
}
use ximg.FileSystem.Levels.{IsMaking, IsLocal, MakesLevels, IsAliasOfLevel, mk_dirs-MakesLevels}
use ximg.Tests.Store.{eqb, eqb_eq, eqb_refl}
use ximg.Text.{str_lcpy, str_lcat}

abbrev pub Paths : Type 0
Paths = List Bytes

abbrev is_in : Paths → Bytes → Bool
is_in [] p = false
is_in (q ∷ w) p = eqb p q || is_in w p

-- The one file.
abbrev pub conf_name : Bytes
conf_name = codes "zimg.lua"

abbrev is_there : Paths → Bytes → Bool
is_there w p = eqb p conf_name || is_in w p

abbrev pub listed : System Paths
listed = record {
  stat =
      λ w p. if eqb p conf_name then some regular else if is_in w p then some directory else none;
  access = is_there;
  mkdir = λ w p. (p ∷ w, true);
  remove = λ w p. w;
  opendir = λ w p. none;
  rmdir = λ w p. (w, false);
}

pub listed-IsMaking : IsMaking listed
listed-IsMaking = record { made = λ w p h. made p w; stays = λ w p q h. ground (arith, h) }
  where
    made : (p : Bytes) (w : Paths) → is_there (p ∷ w) p ≡ true
    made p w = let same = eqb_refl p in ground (arith, same)

pub listed_seen :
    (w : Paths) (p : Bytes) (k : Kind) → listed.stat w p ≡ some k → listed.access w p ≡ true
listed_seen w p k e = elim (Bool-cases (eqb p conf_name)) [
  | inl conf ↦ rw conf refl
  | inr other ↦ elim (Bool-cases (is_in w p)) [
    | inl known ↦ rw (other, known) refl
    | inr unknown ↦ let bad : ◌≡◌ {A = Option Kind} none (some k) = rw (other, unknown) at e in cc
  ]
]

-- A path has no alias but itself there.
abbrev Itself : Bytes → Bytes → Type 0
Itself p q = q ≡ p

listed-IsLocal : IsLocal listed Itself
listed-IsLocal = record {
  only = λ w p q h. elim (Bool-cases (eqb q p)) [
    | inl same ↦ inr (eqb_eq q p same)
    | inr other ↦ inl (rw other at h)
  ];
}

mk_dirs-MakesLevels_example :
    let after = (mk_dirs listed (codes "./img" ∷ []) (codes "./img/4/2")).0 in
    MakesLevels listed (codes "./img" ∷ []) after (codes "./img/4/2/")
    × ((q : Bytes)
        → listed.access after q ≡ true
        → (listed.access (codes "./img" ∷ []) q ≡ true)
          ⊎ IsAliasOfLevel Itself (codes "./img/4/2/") q)
unfolding mk_dirs mk_dirs_loop make_at make_level with_slash str_lcpy str_lcat
mk_dirs-MakesLevels_example =
    mk_dirs-MakesLevels listed Itself listed-IsMaking listed-IsLocal (codes "./img" ∷ [])
      (codes "./img/4/2") (omega arith) (omega arith) (ground arith) refl
