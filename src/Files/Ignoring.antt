-- ===== src/Files/Ignoring.antt =====
-- Which paths are passed over, and the roots of the file system: internal/collectors/fs/ignore.go and
-- internal/collectors/fs/root.go.
use truespec_agent.Prelude.{
  ℕ, suc, zero, ◌+◌, ◌≡◌, ◌↔◌, inl, inr, refl, ap, subst, Bool, true, false, List, [], ◌∷◌, ◌++◌,
  map, String, str_eq, arith, Bool-cases, if◌then◌else◌, In,
}
use truespec_agent.Text.{Text, codes, has_prefix, contains}

abbrev pub ignored : List Text
ignored =
    codes "/proc"
    ∷ codes "/sys"
    ∷ codes "/dev"
    ∷ codes "c:\\windows"
    ∷ codes "system volume information"
    ∷ []

-- The loop of `shouldIgnore`.
unfoldable pub contains_any : List Text → Text → Bool
contains_any [] p = false
contains_any (ig ∷ igs) p = let rest = contains_any igs p in if contains ig p then true else rest

-- `shouldIgnore`; `lower` is `unicode.ToLower`.
unfoldable pub should_ignore : (ℕ → ℕ) → Text → Bool
unfolding contains_any
should_ignore lower path = contains_any ignored (map lower path)

-- The drives of Windows, `A` and the letters up to `Z`, that `os.Stat` finds.
unfoldable pub drives_from : ℕ → ℕ → (Text → Bool) → List Text
drives_from zero letter exists = []
drives_from (suc n) letter exists =
    let drive = letter ∷ codes ":\\" in
    let rest = drives_from n (letter + 1) exists in if exists drive then drive ∷ rest else rest

unfoldable pub list_windows_drives : (Text → Bool) → List Text
unfolding drives_from
list_windows_drives exists = drives_from 26 65 exists

-- `getRoots`; the first argument is `runtime.GOOS`.
unfoldable pub get_roots : String → (Text → Bool) → List Text
get_roots goos exists =
    if str_eq goos "windowns"
    then list_windows_drives exists
    else if str_eq goos "linux"
    then codes "/" ∷ []
    else if str_eq goos "darwin"
    then codes "/" ∷ []
    else codes "/" ∷ []

-- The text has the other one in it.
abbrev pub Includes : Text → Text → Type 0
Includes sub s = (pre : Text) × (post : Text) × (s ≡ pre ++ sub ++ post)

has_prefix-split : (sub s : Text) → has_prefix sub s ≡ true → (post : Text) × (s ≡ sub ++ post)
has_prefix-split [] s h = (s, refl)
has_prefix-split (c ∷ sub) [] h = absurd (ground arith)
has_prefix-split (c ∷ sub) (d ∷ s) h =
    let (post, split) = has_prefix-split sub s (ground arith) in (post, ground (arith, split))

has_prefix-append : (sub post : Text) → has_prefix sub (sub ++ post) ≡ true
has_prefix-append [] post = refl
has_prefix-append (c ∷ sub) post = ground (arith, has_prefix-append sub post)

contains-Includes : (sub s : Text) → contains sub s ≡ true → Includes sub s
unfolding contains
contains-Includes sub [] h = let (post, split) = has_prefix-split sub [] h in ([], post, split)
contains-Includes sub (c ∷ s) h = elim (Bool-cases (has_prefix sub (c ∷ s))) [
  | inl starts ↦ let (post, split) = has_prefix-split sub (c ∷ s) starts in ([], post, split)
  | inr later ↦
      let (pre, post, split) = contains-Includes sub s (rw later at h) in
      (c ∷ pre, post, ap (◌∷◌ c) split)
]

contains_prefix : (sub t : Text) → has_prefix sub t ≡ true → contains sub t ≡ true
unfolding contains
contains_prefix sub [] starts = starts
contains_prefix sub (c ∷ t) starts = ground arith

contains-append : (sub pre post : Text) → contains sub (pre ++ sub ++ post) ≡ true
unfolding contains
contains-append sub [] post = contains_prefix sub (sub ++ post) (has_prefix-append sub post)
contains-append sub (c ∷ pre) post = ground (arith, contains-append sub pre post)

-- `strings.Contains` finds exactly the texts that stand somewhere in the other.
pub contains_iff : (sub s : Text) → (contains sub s ≡ true) ↔ Includes sub s
contains_iff sub s =
    (contains-Includes sub s, λ (pre, post, split). rw split (contains-append sub pre post))

contains_any_iff :
    (igs : List Text) (p : Text)
    → (contains_any igs p ≡ true) ↔ ((ig : Text) × In ig igs × Includes ig p)
unfolding contains_any
contains_any_iff [] p = ((λ h. absurd (ground arith)), λ (ig, none_of, includes). absurd none_of)
contains_any_iff (ig ∷ igs) p =
    let later = contains_any_iff igs p in
    elim (Bool-cases (contains ig p)) [
      | inl found ↦ rw found ((λ h. (ig, inl refl, (contains_iff ig p).0 found)), λ h. refl)
      | inr absent ↦ rw absent (
        (λ h. let (x, here, includes) = later.0 h in (x, inr here, includes)),
        λ (x, here, includes). elim here [
          | inl same ↦
              let found : contains ig p ≡ true =
                (contains_iff ig p).1 (subst (λ (y : Text). Includes y p) same includes) in
              absurd (ground arith)
          | inr there ↦ later.1 (x, there, includes)
        ],
      )
    ]

-- `shouldIgnore` passes over exactly the paths that have one of its texts somewhere in them, at the
-- start or not, once in lower case.
pub should_ignore_iff :
    (lower : ℕ → ℕ) (path : Text)
    → (should_ignore lower path ≡ true)
      ↔ ((ig : Text) × In ig ignored × Includes ig (map lower path))
unfolding should_ignore
should_ignore_iff lower path = contains_any_iff ignored (map lower path)
