-- ===== src/ServiceConfig/Paths.antt =====
-- path/filepath and net.SplitHostPort, as internal/serviceconfig/config.go calls them on a Unix system.
use mathlib.Core.List.{reverse, reverse-cons}
use yyb_go.Prelude.{
  ℕ, ◌≡◌, refl, sym, subst, ◌⊎◌, inl, inr, Bool, true, false, ◌||◌, List, [], ◌∷◌, Option, none,
  some, ◌==◌, if◌then◌else◌, All, All-append, Bool-cases, codes, arith,
}
use yyb_go.Prelude.Text.{Text, text_eq, split, join, cut, has_prefix}

-- strings.Contains of one byte
unfoldable pub has : ℕ → Text → Bool
has b [] = false
has b (c ∷ s) = c == b || has b s

skip_slashes : Text → Text
skip_slashes [] = []
skip_slashes (c ∷ s) = let rest = skip_slashes s in if c == b'/' then rest else c ∷ s

to_slash : Text → Text
to_slash [] = []
to_slash (c ∷ s) = let rest = to_slash s in if c == b'/' then [] else c ∷ rest

abbrev or_root : Text → Text
or_root [] = b'/' ∷ []
or_root (c ∷ s) = c ∷ s

-- filepath.Base
unfoldable pub base : Text → Text
unfolding skip_slashes to_slash
base [] = b'.' ∷ []
base (c ∷ s) = or_root (reverse (to_slash (skip_slashes (reverse (c ∷ s)))))

-- What `..` does to the elements before it, of which the last comes first.
step_up : Bool → List Text → List Text
step_up rooted [] = if rooted then [] else codes ".." ∷ []
step_up rooted (p ∷ ps) = if text_eq p (codes "..") then codes ".." ∷ p ∷ ps else ps

clean_from : Bool → List Text → List Text → List Text
unfolding step_up
clean_from rooted [] before = reverse before
clean_from rooted (p ∷ ps) before = clean_from rooted ps (
    if text_eq p [] || text_eq p (codes ".")
    then before
    else if text_eq p (codes "..")
    then step_up rooted before
    else p ∷ before)

abbrev or_dot : Text → Text
or_dot [] = b'.' ∷ []
or_dot (c ∷ s) = c ∷ s

-- filepath.Clean
unfoldable pub clean : Text → Text
unfolding clean_from
clean [] = b'.' ∷ []
clean (c ∷ s) =
    if c == b'/'
    then b'/' ∷ join (clean_from true (split s b'/') []) (codes "/")
    else or_dot (join (clean_from false (split (c ∷ s) b'/') []) (codes "/"))

-- What follows the brackets of a host: the last colon, and the port.
port_behind : Text → Text → Option (Text × Text)
unfolding has
port_behind host [] = none
port_behind host (c ∷ port) =
    if c == b':'
    then (if has b':' port || (has b'[' port || has b']' port) then none else some (host, port))
    else none

bracketed : Option (Text × Text) → Option (Text × Text)
unfolding port_behind has
bracketed none = none
bracketed (some (host, behind)) = if has b'[' host then none else port_behind host behind

one_colon : Text → Option (Text × Text) → Option (Text × Text)
unfolding has
one_colon s none = none
one_colon s (some (host, port)) =
    if has b':' port || (has b'[' s || has b']' s) then none else some (host, port)

-- net.SplitHostPort, without its error.
unfoldable pub split_host_port : Text → Option (Text × Text)
unfolding bracketed one_colon
split_host_port [] = none
split_host_port (c ∷ s) =
    if c == b'[' then bracketed (cut s b']') else one_colon (c ∷ s) (cut (c ∷ s) b':')

abbrev pub NoSlash : Text → Type 0
NoSlash s = All (λ (c : ℕ). (c == b'/') ≡ false) s

All-reverse : (s : Text) → NoSlash s → NoSlash (reverse s)
All-reverse [] h = tt
All-reverse (c ∷ s) (hc, h) =
    subst NoSlash (sym (reverse-cons c s))
      (All-append _ (reverse s) (c ∷ []) (All-reverse s h) (hc, tt))

to_slash-NoSlash : (s : Text) → NoSlash (to_slash s)
unfolding to_slash
to_slash-NoSlash [] = tt
to_slash-NoSlash (c ∷ s) = elim (Bool-cases (c == b'/')) [
  | inl slash ↦ rw slash tt
  | inr other ↦ rw other (other, to_slash-NoSlash s)
]

or_root-NoSlash : (s : Text) → NoSlash s → NoSlash (or_root s) ⊎ (or_root s ≡ codes "/")
or_root-NoSlash [] h = inr refl
or_root-NoSlash (c ∷ s) h = inl h

-- The last element of a path has no slash, unless it is the root.
pub base-NoSlash : (s : Text) → NoSlash (base s) ⊎ (base s ≡ codes "/")
unfolding base
base-NoSlash [] = inl (refl, tt)
base-NoSlash (c ∷ s) = or_root-NoSlash (reverse (to_slash (skip_slashes (reverse (c ∷ s))))) (
    All-reverse (to_slash (skip_slashes (reverse (c ∷ s))))
      (to_slash-NoSlash (skip_slashes (reverse (c ∷ s)))))

-- Not absolute, and without an element other than `.`.
abbrev pub NamesWorkingDirectory : Text → Type 0
NamesWorkingDirectory s =
    (has_prefix s (codes "/") ≡ false)
    × All (λ (p : Text). (text_eq p [] || text_eq p (codes ".")) ≡ true) (split s b'/')

clean_from-dots :
    (ps : List Text)
    → All (λ (p : Text). (text_eq p [] || text_eq p (codes ".")) ≡ true) ps
    → clean_from false ps [] ≡ []
unfolding clean_from
clean_from-dots [] _ = refl
clean_from-dots (p ∷ ps) (dot, rest) = rw dot (clean_from-dots ps rest)

pub clean-dot : (s : Text) → NamesWorkingDirectory s → clean s ≡ codes "."
unfolding clean
clean-dot [] _ = refl
clean-dot (c ∷ s) (relative, dots) =
    let other : (c == b'/') ≡ false = no_slash relative in
    rw (other, clean_from-dots (split (c ∷ s) b'/') dots) (unfold join in refl)
  where
    no_slash : has_prefix (c ∷ s) (codes "/") ≡ false → (c == b'/') ≡ false
    no_slash h = unfold has_prefix in ground arith
