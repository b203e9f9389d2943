-- ===== src/Protocol/NewDns/Cache.antt =====
-- internal/protocol/newdns.go: the answer of the DNS is kept for a while. The one key of the cache has
-- one entry.
use yyb_go.Prelude.{
  ℕ, ◌+◌, ◌<◌, ◌≡◌, refl, ap, sym, ◌∙◌, subst, inl, inr, ◌⊎◌, arith, Bool-cases, lt→ltb, ltb→lt,
  Bool, true, false, not, ◌&&◌, List, [], ◌∷◌, Option, none, some, codes, ltb, ◌==◌, if◌then◌else◌,
}
use yyb_go.Prelude.Outcome.{Outcome, ok as answered, err as failed, panic as crashed}
use yyb_go.Prelude.Text.{Text, ℤ, pos, negsuc}
use yyb_go.Protocol.Values.{Fields}
use yyb_go.Protocol.NewDns.{
  DnsDomain, Error, bad_status, request_failed, of_request, Result, ok, err, parse_domain_list,
}

pub record CacheEntry : Type 0 where
  pub expires_at : ℕ
  pub parsed : List (Text × DnsDomain)

-- What requestNewDNS returns: a status, and the object of the body if it is one.
pub record Reply : Type 0 where
  pub status : ℤ
  pub obj : Option Fields

abbrev pub Parsed : Type 0
Parsed = Result (List (Text × DnsDomain))

abbrev pub is_success : ℤ → Bool
is_success (pos n) = n == 200
is_success (negsuc n) = false

abbrev pub read_obj : (Text → Bool) → ℤ → Option Fields → Parsed
read_obj is_ip status none = err (bad_status status)
read_obj is_ip status (some obj) =
    if is_success status then parse_domain_list is_ip obj else err (bad_status status)

abbrev pub read_reply : (Text → Bool) → Outcome Text Reply → Parsed
read_reply is_ip (failed why) = err (of_request why)
read_reply is_ip crashed = err request_failed
read_reply is_ip (answered reply) = read_obj is_ip reply.status reply.obj

abbrev pub kept_for : ℕ → ℕ → List (Text × DnsDomain) → Option CacheEntry → Option CacheEntry
kept_for now cache_ttl parsed cache =
    if ltb 0 cache_ttl
    then some (record { expires_at = now + cache_ttl; parsed = parsed })
    else cache

module _ (is_ip : Text → Bool) (now cache_ttl : ℕ) where
  abbrev pub or_next :
      Parsed → Option CacheEntry → (Error → Parsed × Option CacheEntry) → Parsed × Option CacheEntry
  or_next (ok parsed) cache next = (ok parsed, kept_for now cache_ttl parsed cache)
  or_next (err e) cache next = next e

  -- The servers of the DNS one after the other; the last error is returned.
  unfoldable pub ask_all :
      List Text
      → (Text → Outcome Text Reply)
      → Error
      → Option CacheEntry
      → Parsed × Option CacheEntry
  ask_all [] request last cache = (err last, cache)
  ask_all (server ∷ servers) request last cache =
      or_next (read_reply is_ip (request server)) cache (λ e. ask_all servers request e cache)

  abbrev pub live_entry : Option CacheEntry → Option CacheEntry
  live_entry none = none
  live_entry (some entry) = if ltb now entry.expires_at then some entry else none

  abbrev pub or_ask :
      Option CacheEntry
      → Parsed × Option CacheEntry
      → Option CacheEntry
      → Parsed × Option CacheEntry
  or_ask none asked cache = asked
  or_ask (some entry) asked cache = (ok entry.parsed, cache)

  unfoldable pub get_dns_parsed :
      Bool → (Text → Outcome Text Reply) → Option CacheEntry → Parsed × Option CacheEntry
  get_dns_parsed force request cache =
      or_ask (if not force && ltb 0 cache_ttl then live_entry cache else none)
        (ask_all ([] ∷ codes "180.153.202.85" ∷ []) request request_failed cache) cache

  -- An entry with the answer, which ends so long after the question.
  abbrev IsFresh : List (Text × DnsDomain) → Option CacheEntry → Type 0
  IsFresh parsed cache = cache ≡ some (record { expires_at = now + cache_ttl; parsed = parsed })

  -- The entry that a later call may take: a fresh one, or the one that was there and has not ended.
  abbrev pub Holds :
      Bool → Option CacheEntry → List (Text × DnsDomain) → Option CacheEntry → CacheEntry → Type 0
  Holds force cache parsed cache' entry =
      (cache' ≡ some entry)
      × (entry.parsed ≡ parsed)
      × (now < entry.expires_at)
      × ((entry.expires_at ≡ now + cache_ttl) ⊎ ((force ≡ false) × (cache ≡ some entry)))

  or_next-IsFresh :
      (reply : Parsed) (cache : Option CacheEntry) (next : Error → Parsed × Option CacheEntry)
      (parsed : List (Text × DnsDomain)) (cache' : Option CacheEntry)
      → 0 < cache_ttl
      → ((e : Error) → next e ≡ (ok parsed, cache') → IsFresh parsed cache')
      → or_next reply cache next ≡ (ok parsed, cache')
      → IsFresh parsed cache'
  or_next-IsFresh (ok found) cache next parsed cache' keeps then_next e =
      let stored : kept_for now cache_ttl found cache
          ≡ some (record { expires_at = now + cache_ttl; parsed = found }) =
        rw (lt→ltb 0 cache_ttl keeps) refl in
      let same : found ≡ parsed = cc in
      sym (ap (λ r. r.1) e)
      ∙ stored
      ∙ ap (λ p. some (record { expires_at = now + cache_ttl; parsed = p })) same
  or_next-IsFresh (err why) cache next parsed cache' keeps then_next e = then_next why e

  ask_all-IsFresh :
      (servers : List Text) (request : Text → Outcome Text Reply) (last : Error)
      (cache : Option CacheEntry) (parsed : List (Text × DnsDomain)) (cache' : Option CacheEntry)
      → 0 < cache_ttl
      → ask_all servers request last cache ≡ (ok parsed, cache')
      → IsFresh parsed cache'
  unfolding ask_all
  ask_all-IsFresh [] request last cache parsed cache' keeps e = absurd (cc)
  ask_all-IsFresh (server ∷ servers) request last cache parsed cache' keeps e =
      or_next-IsFresh (read_reply is_ip (request server)) cache
        (λ e. ask_all servers request e cache) parsed cache' keeps
        (λ why. ask_all-IsFresh servers request why cache parsed cache' keeps) e

  live_entry-Holds :
      (force : Bool) (cache found : Option CacheEntry) (asked : Parsed × Option CacheEntry)
      (parsed : List (Text × DnsDomain)) (cache' : Option CacheEntry)
      → 0 < cache_ttl
      → ((entry : CacheEntry)
          → found ≡ some entry
          → (force ≡ false) × (cache ≡ some entry) × (now < entry.expires_at))
      → (asked ≡ (ok parsed, cache') → IsFresh parsed cache')
      → or_ask found asked cache ≡ (ok parsed, cache')
      → (entry : CacheEntry) × Holds force cache parsed cache' entry
  live_entry-Holds force cache none asked parsed cache' keeps live then_asked e = (
    record { expires_at = now + cache_ttl; parsed = parsed },
    (then_asked e, refl, omega arith, inl refl),
  )
  live_entry-Holds force cache (some entry) asked parsed cache' keeps live then_asked e =
      let (unforced, is, fits) = live entry refl in (entry, (cc, cc, fits, inr (unforced, is)))

  live_entry-some :
      (force : Bool) (cache : Option CacheEntry) (entry : CacheEntry)
      → (if not force && ltb 0 cache_ttl then live_entry cache else none) ≡ some entry
      → (force ≡ false) × (cache ≡ some entry) × (now < entry.expires_at)
  live_entry-some true cache entry e = absurd (cc)
  live_entry-some false cache entry e = elim (Bool-cases (ltb 0 cache_ttl)) [
    | inr never ↦ let gone : none ≡ some entry = sym (rw never refl) ∙ e in absurd (cc)
    | inl keeps ↦ let (is, fits) = live cache (sym (rw keeps refl) ∙ e) in (refl, is, fits)
  ]
    where
      live :
          (cache : Option CacheEntry)
          → live_entry cache ≡ some entry
          → (cache ≡ some entry) × (now < entry.expires_at)
      live none e = absurd (cc)
      live (some found) e = elim (Bool-cases (ltb now found.expires_at)) [
        | inl early ↦
            let same : some found ≡ some entry = sym (rw early refl) ∙ e in
            let is : found ≡ entry = cc in
            (
              same,
              subst (λ (c : CacheEntry). now < c.expires_at) is (ltb→lt now found.expires_at early),
            )
        | inr over ↦ let gone : none ≡ some entry = sym (rw over refl) ∙ e in absurd (cc)
      ]

  get_dns_parsed-Holds :
      (force : Bool) (request : Text → Outcome Text Reply) (cache : Option CacheEntry)
      (parsed : List (Text × DnsDomain)) (cache' : Option CacheEntry)
      → 0 < cache_ttl
      → get_dns_parsed force request cache ≡ (ok parsed, cache')
      → (entry : CacheEntry) × Holds force cache parsed cache' entry
  unfolding get_dns_parsed
  get_dns_parsed-Holds force request cache parsed cache' keeps =
      live_entry-Holds force cache (if not force && ltb 0 cache_ttl then live_entry cache else none)
        (ask_all ([] ∷ codes "180.153.202.85" ∷ []) request request_failed cache) parsed cache'
        keeps (live_entry-some force cache)
        (ask_all-IsFresh _ request request_failed cache parsed cache' keeps)

get_dns_parsed-at :
    (is_ip : Text → Bool) (later cache_ttl : ℕ) (other : Text → Outcome Text Reply)
    (entry : CacheEntry)
    → 0 < cache_ttl
    → get_dns_parsed is_ip later cache_ttl false other (some entry) ≡ (
        if ltb later entry.expires_at
        then (ok entry.parsed, some entry)
        else get_dns_parsed is_ip later cache_ttl true other (some entry))
unfolding get_dns_parsed
get_dns_parsed-at is_ip later cache_ttl other entry keeps =
    elim (Bool-cases (ltb later entry.expires_at)) [
      | inl early ↦ rw (lt→ltb 0 cache_ttl keeps, early) refl
      | inr over ↦ rw (lt→ltb 0 cache_ttl keeps, over) refl
    ]

-- With a cache that keeps its entries, an answer of the DNS is in the cache behind the call: with an end
-- that is as long after the call as the cache keeps its entries, or in the entry that was there, if the
-- call was not forced. The end is still to come. A later call that is not forced gives the answer again,
-- without a question to any server, before that end, and asks as a forced call does from then on.
pub get_dns_parsed-Caches :
    (is_ip : Text → Bool) (now cache_ttl : ℕ) (force : Bool) (request : Text → Outcome Text Reply)
    (cache : Option CacheEntry) (parsed : List (Text × DnsDomain)) (cache' : Option CacheEntry)
    → 0 < cache_ttl
    → get_dns_parsed is_ip now cache_ttl force request cache ≡ (ok parsed, cache')
    → (entry : CacheEntry) × Holds is_ip now cache_ttl force cache parsed cache' entry
      × ((later : ℕ) (other : Text → Outcome Text Reply)
          → get_dns_parsed is_ip later cache_ttl false other cache' ≡ (
              if ltb later entry.expires_at
              then (ok parsed, cache')
              else get_dns_parsed is_ip later cache_ttl true other cache'))
get_dns_parsed-Caches is_ip now cache_ttl force request cache parsed cache' keeps e =
    let (entry, (is, same, fits, whence)) =
      get_dns_parsed-Holds is_ip now cache_ttl force request cache parsed cache' keeps e in
    (
      entry,
      (is, same, fits, whence),
      λ later other. rw (is, ← same) (get_dns_parsed-at is_ip later cache_ttl other entry keeps),
    )
