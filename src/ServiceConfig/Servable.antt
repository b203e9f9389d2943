-- ===== src/ServiceConfig/Servable.antt =====
-- internal/serviceconfig/config.go: what holds of every configuration that Load returns.
use yyb_go.Prelude.{
  ltb, List, length-take, take, ◌+◌, ◌^◌, ap, ◌∙◌, subst, ℕ, zero, suc, ◌≡◌, refl, ◌⊎◌, inl, inr,
  Bool, true, false, not, ◌||◌, [], ◌∷◌, Option, none, some, ◌≤◌, ◌<◌, arith, length, if◌then◌else◌,
  Bool-cases, codes,
}
use yyb_go.Prelude.Outcome.{Outcome, ok, err, ok-injective, bind-ok}
use yyb_go.Prelude.Text.{Text, text_eq, text_eq_iff, trim_space, atoi, ℤ, pos, negsuc}
use yyb_go.ServiceConfig.Paths.{
  NamesWorkingDirectory, clean, clean-dot, base, split_host_port, NoSlash, base-NoSlash,
}
use yyb_go.ServiceConfig.{
  Config, Error, File, missing, unreadable, holds, Decoder, Ending, eof, invalid, another,
  is_negative, or_default, or_python, is_port, listen_address_error, validate_listen_address,
  trimmed, with_defaults, validate, behind_address, normalize_and_validate, ensure_json_end,
  too_large, maximum_config_size, decoded, parsed, load,
}

-- A host that is not blank, and a port of TCP.
abbrev pub IsListenAddress : Text → Type 0
IsListenAddress address =
    (host : Text) × (raw_port : Text) × (port : ℕ) × (split_host_port address
      ≡ some (host, raw_port))
    × (text_eq (trim_space host) [] ≡ false)
    × (atoi raw_port ≡ some (pos port))
    × (1 ≤ port)
    × (port ≤ 65535)

-- Not empty, and in no directory, unless it is the root itself.
abbrev pub IsFilename : Text → Type 0
IsFilename name = (0 < length name) × (NoSlash name ⊎ (name ≡ codes "/"))

abbrev pub IsPositive : ℤ → Type 0
IsPositive z = (n : ℕ) × (z ≡ pos n) × (0 < n)

-- The cleaned form of what was given, with the spaces at its ends removed, which is absolute or has an
-- element other than `.`.
abbrev pub IsRoot : Text → Text → Type 0
IsRoot given root =
    (root ≡ clean (trim_space given))
    × (text_eq root (codes ".") ≡ false)
    × ¬ (NamesWorkingDirectory (trim_space given))

-- What holds of the configuration that comes of a given one.
abbrev pub IsServable : Config → Config → Type 0
IsServable given c =
    IsListenAddress c.listen_address
    × IsRoot given.data_root c.data_root
    × IsRoot given.asset_root c.asset_root
    × IsFilename c.database_filename
    × IsPositive c.keep_alive_interval_minute
    × IsPositive c.keep_alive_ahead_minute
    × IsPositive c.session_duration_minute
    × (0 < length c.python_command)

is_port-Port :
    (read : Option ℤ)
    → is_port read ≡ true
    → (port : ℕ) × (read ≡ some (pos port)) × (1 ≤ port) × (port ≤ 65535)
is_port-Port none h = absurd (cc)
is_port-Port (some (negsuc n)) h = absurd (cc)
is_port-Port (some (pos n)) h = (n, refl, ground arith, ground arith)

listen_address_error-IsListenAddress :
    (address : Text) (found : Option (Text × Text))
    → split_host_port address ≡ found
    → listen_address_error found ≡ none
    → IsListenAddress address
unfolding listen_address_error
listen_address_error-IsListenAddress address none e h = absurd (cc)
listen_address_error-IsListenAddress address (some (host, raw_port)) e h =
    elim (Bool-cases (text_eq (trim_space host) [])) [
      | inl blank ↦ absurd (cc)
      | inr given ↦ elim (Bool-cases (is_port (atoi raw_port))) [
        | inl valid ↦
            let (port, read, low, high) = is_port-Port (atoi raw_port) valid in
            (host, raw_port, port, e, given, read, low, high)
        | inr other ↦ absurd (cc)
      ]
    ]

or_default-IsPositive :
    (z : ℤ) (n : ℕ) → 0 < n → is_negative z ≡ false → IsPositive (or_default z n)
or_default-IsPositive (pos zero) n h _ = (n, refl, h)
or_default-IsPositive (pos (suc m)) n h _ = (suc m, refl, omega arith)
or_default-IsPositive (negsuc m) n h e = absurd (cc)

or_python-length : (s : Text) → 0 < length (or_python s)
or_python-length [] = omega arith
or_python-length (c ∷ s) = omega arith

nonempty : (s : Text) → text_eq s [] ≡ false → 0 < length s
unfolding text_eq
nonempty [] h = absurd (cc)
nonempty (c ∷ s) h = omega arith

-- The two conditions on the name of the database.
base-IsFilename :
    (name : Text) → text_eq name [] ≡ false → text_eq (base name) name ≡ true → IsFilename name
base-IsFilename name given last =
    let e = (text_eq_iff (base name) name).0 last in
    (nonempty name given, subst (λ s. NoSlash s ⊎ (s ≡ codes "/")) e (base-NoSlash name))

or_split : (a b : Bool) → (a || b) ≡ false → (a ≡ false) × (b ≡ false)
or_split true b h = absurd (cc)
or_split false b h = (refl, h)

not-false : (a : Bool) → not a ≡ false → a ≡ true
not-false true h = refl
not-false false h = absurd (cc)

-- A test that ends in an error did not hold where there is a result.
passed :
    (test : Bool) (e : Error) (rest : Outcome Error Config) {c : Config}
    → (if test then err e else rest) ≡ ok c
    → (test ≡ false) × (rest ≡ ok c)
passed true e rest h = absurd (cc)
passed false e rest h = (refl, h)

clean-IsRoot :
    (given : Text)
    → text_eq (clean (trim_space given)) (codes ".") ≡ false
    → IsRoot given (clean (trim_space given))
unfolding text_eq
clean-IsRoot given h = (
  refl,
  h,
  λ dots.
      let e : text_eq (clean (trim_space given)) (codes ".") ≡ true =
        rw (clean-dot (trim_space given) dots) refl in
      absurd (cc),
)

validate-IsServable :
    (given : Config) {d : Config}
    → IsListenAddress (trimmed given).listen_address
    → validate (trimmed given) ≡ ok d
    → IsServable given d
unfolding validate with_defaults trimmed
validate-IsServable given address h =
    let (roots, named) = passed _ _ _ h in
    let (data_root, asset_root) = or_split _ _ roots in
    let (name, kept) = passed _ _ _ named in
    let (not_empty, last) = or_split _ _ name in
    let (counts, lasting) = passed _ _ _ kept in
    let (interval, ahead) = or_split _ _ counts in
    let (duration, e) = passed _ _ _ lasting in
    subst (IsServable given) (ok-injective e) (
      address,
      clean-IsRoot given.data_root data_root,
      clean-IsRoot given.asset_root asset_root,
      base-IsFilename (trimmed given).database_filename not_empty (not-false _ last),
      or_default-IsPositive given.keep_alive_interval_minute 1 (omega arith) interval,
      or_default-IsPositive given.keep_alive_ahead_minute 45 (omega arith) ahead,
      or_default-IsPositive given.session_duration_minute 1440 (omega arith) duration,
      or_python-length (trimmed given).python_command,
    )

behind_address-IsServable :
    (checked : Option Error) (given : Config) {d : Config}
    → validate_listen_address (trimmed given).listen_address ≡ checked
    → behind_address checked (trimmed given) ≡ ok d
    → IsServable given d
unfolding behind_address
behind_address-IsServable none given valid h =
    let address = (trimmed given).listen_address in
    validate-IsServable given
      (listen_address_error-IsListenAddress address (split_host_port address) refl valid) h
behind_address-IsServable (some e) given valid h = absurd (cc)

normalize_and_validate-IsServable :
    (given : Config) {d : Config} → normalize_and_validate given ≡ ok d → IsServable given d
unfolding normalize_and_validate
normalize_and_validate-IsServable given h =
    behind_address-IsServable (validate_listen_address (trimmed given).listen_address) given refl h

ensure_json_end-ok :
    (end : Ending) (c : Config) {d : Config} → ensure_json_end end c ≡ ok d → (end ≡ eof) × (c ≡ d)
ensure_json_end-ok eof c h = (refl, ok-injective h)
ensure_json_end-ok invalid c h = absurd (cc)
ensure_json_end-ok another c h = absurd (cc)

decoded-ok : (found : Option Config) {c : Config} → decoded found ≡ ok c → found ≡ some c
decoded-ok none h = absurd (cc)
decoded-ok (some c) h = ap some (ok-injective h)

-- The text is one configuration of which the other comes.
abbrev pub Gives : Decoder → Text → Config → Config → Type 0
Gives decoder raw given c =
    (length raw ≤ 2 ^ 20)
    × (decoder.decode raw ≡ some given)
    × (decoder.ending raw ≡ eof)
    × IsServable given c

parsed-Gives :
    (decoder : Decoder) (raw : Text) {d : Config}
    → parsed decoder raw ≡ ok d
    → (given : Config) × Gives decoder raw given d
unfolding parsed
parsed-Gives decoder raw h =
    let (small, chain) = passed (ltb maximum_config_size (length raw)) too_large _ h in
    let (c, after, read) = bind-ok _ (decoded (decoder.decode raw)) chain in
    let (config, valid, last) = bind-ok _ (ensure_json_end (decoder.ending raw) c) after in
    let (ends, same) = ensure_json_end-ok (decoder.ending raw) c last in
    (
      config,
      (
        ground (arith, small),
        decoded-ok (decoder.decode raw) read ∙ ap some same,
        ends,
        normalize_and_validate-IsServable config valid,
      ),
    )

take-all : {A : Type 0} (n : ℕ) (xs : List A) → length xs ≤ n → take n xs ≡ xs
take-all zero [] h = refl
take-all zero (x ∷ xs) h = absurd (omega arith)
take-all (suc n) [] h = refl
take-all (suc n) (x ∷ xs) h = ap (◌∷◌ x) (take-all n xs (omega arith))

-- The limit of the reader leaves a text that is small enough as it is.
limited_lem : (s : Text) → length (take (2 ^ 20 + 1) s) ≤ 2 ^ 20 → take (2 ^ 20 + 1) s ≡ s
limited_lem s h =
    let cut_length = length-take (2 ^ 20 + 1) s in take-all (2 ^ 20 + 1) s (omega arith)

-- Load returns a configuration only of a file of 1 MiB at most that holds one configuration and nothing
-- else. The result has a listening address with a host and a port from 1 to 65535; for the data and the
-- assets the cleaned forms of the paths in the file, which are not `.` and of which each is absolute in the
-- file or has an element other than `.` there; a name for the database that is neither empty nor, unless
-- it is the root itself, has a slash; intervals and a session duration of a minute or more; and a command
-- for Python.
pub load-IsServable :
    (decoder : Decoder) (file : File) {c : Config}
    → load decoder file ≡ ok c
    → (raw : Text) × (given : Config) × (file ≡ holds raw) × Gives decoder raw given c
unfolding load
load-IsServable decoder missing h = absurd (cc)
load-IsServable decoder unreadable h = absurd (cc)
load-IsServable decoder (holds s) {c} h =
    let raw = take (2 ^ 20 + 1) s in
    let (given, gives) = parsed-Gives decoder raw h in
    let whole = limited_lem s gives.0 in
    (s, given, refl, subst (λ r. Gives decoder r given c) whole gives)
