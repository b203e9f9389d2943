-- ===== src/HttpApi/Auth/Paths.antt =====
-- internal/httpapi/auth.go: where a login may lead, and which paths are API paths.
use yyb_go.Prelude.{
  ◌≡◌, refl, ◌↔◌, ◌⊎◌, inl, inr, true, false, not, ◌&&◌, List, [], ◌∷◌, ◌++◌, codes, Bool-cases,
  arith, or_split, or_join,
}
use mathlib.Core.List.{Memᴰ}
use mathlib.Core.List.Memᴰ
use yyb_go.Prelude.Text.{Text, text_eq, text_eq_iff, has_prefix, has_prefix_iff}
use yyb_go.HttpApi.Auth.{safe_next, under_prefix, api_prefixes, is_api_request}

-- It starts with one slash, and not with two. A browser may still read the second byte of `/\` as a
-- slash.
abbrev pub HasOneSlash : Text → Type 0
HasOneSlash value = (has_prefix value (codes "/") ≡ true) × (has_prefix value (codes "//") ≡ false)

safe_next-kept : (value : Text) → HasOneSlash value → safe_next value ≡ value
unfolding safe_next
safe_next-kept value (one, two) = ground (arith, one, two)

safe_next-replaced :
    (value : Text)
    → (has_prefix value (codes "/") && not (has_prefix value (codes "//"))) ≡ false
    → safe_next value ≡ codes "/"
unfolding safe_next
safe_next-replaced value h = ground (arith, h)

slash-HasOneSlash : HasOneSlash (codes "/")
unfolding has_prefix
slash-HasOneSlash = (refl, refl)

test-HasOneSlash :
    (value : Text)
    → (has_prefix value (codes "/") && not (has_prefix value (codes "//"))) ≡ true
    → HasOneSlash value
test-HasOneSlash value h = (ground arith, ground arith)

-- Whatever page a login asks for, `safeNext` answers a path that starts with exactly one slash, and
-- it answers the page itself if that is such a path.
pub safe_next-HasOneSlash :
    (value : Text) → HasOneSlash (safe_next value) × (HasOneSlash value → safe_next value ≡ value)
safe_next-HasOneSlash value = (
  elim (Bool-cases (has_prefix value (codes "/") && not (has_prefix value (codes "//")))) [
    | inl kept ↦
        let local_value = test-HasOneSlash value kept in
        rw (safe_next-kept value local_value) local_value
    | inr replaced ↦ rw (safe_next-replaced value replaced) slash-HasOneSlash
  ],
  safe_next-kept value,
)

-- The path is the prefix, or it goes on behind it with a slash.
abbrev pub Under : Text → Text → Type 0
Under prefix path = (path ≡ prefix) ⊎ ((rest : Text) × (path ≡ (prefix ++ codes "/") ++ rest))

under_prefix_iff :
    (path : Text) (prefixes : List Text)
    → (under_prefix path prefixes ≡ true)
      ↔ ((prefix : Text) × Memᴰ prefix prefixes × Under prefix path)
unfolding under_prefix
under_prefix_iff path [] = (λ h. absurd (cc), λ (prefix, mem, _). absurd (Memᴰ.not-nil mem))
under_prefix_iff path (prefix ∷ prefixes) = (
  λ h. elim (or_split (text_eq path prefix) _ h) [
    | inl same ↦ (prefix, Memᴰ.head refl, inl ((text_eq_iff path prefix).0 same))
    | inr h ↦ elim (or_split (has_prefix path (prefix ++ codes "/")) _ h) [
      | inl below ↦
          (prefix, Memᴰ.head refl, inr ((has_prefix_iff path (prefix ++ codes "/")).0 below))
      | inr h ↦
          let (p, mem, under) = (under_prefix_iff path prefixes).0 h in (p, Memᴰ.tail mem, under)
    ]
  ],
  λ (p, mem, under). elim (Memᴰ.cases_cons mem) [
    | inl same ↦ or_join (text_eq path prefix) _ (
        let here : Under prefix path = rw (← same) under in
        elim here [
          | inl exact ↦ inl ((text_eq_iff path prefix).1 exact)
          | inr below ↦ inr (
              or_join (has_prefix path (prefix ++ codes "/")) _
                (inl ((has_prefix_iff path (prefix ++ codes "/")).1 below)))
        ])
    | inr mem ↦ or_join (text_eq path prefix) _ (
        inr (
          or_join (has_prefix path (prefix ++ codes "/")) _
            (inr ((under_prefix_iff path prefixes).1 (p, mem, under)))))
  ],
)

-- `isAPIRequest` holds exactly for the seven prefixes and the paths below them.
pub is_api_request_iff :
    (path : Text)
    → (is_api_request path ≡ true)
      ↔ ((prefix : Text) × Memᴰ prefix api_prefixes × Under prefix path)
unfolding is_api_request
is_api_request_iff path = under_prefix_iff path api_prefixes
