-- ===== src/Explain/Narrator/Cache.antt =====
-- The cache of the narrator (internal/explain/narrative.go: Narrate).
use mechmind.Explain.Packet.{worth_narrating, Packet}
use mechmind.Explain.Narrator.{
  complete, errored, Completion, skipped_for, blank, fingerprint_of, written, Narrator,
  store_completion, use_cache, call_model, NarrativeResult, narrate, Outside, CacheEntry,
}
use mechmind.Base.{
  ltb-true, clash, Bool-cases, ◌+◌, ◌<◌, ◌≡◌, refl, inl, inr, Bool, true, false, Option, none, some,
  ltb,
}
use mechmind.Text.Map.{drop_key, get_key-put_key, put_key, get_key}

module _ {F : Type 0} (O : Outside F) where
  open O use {World, now, marshal, sha256, hex, send, parse}

  -- The result, the narrator and the world after a call.
  abbrev Outcome : Type 0
  Outcome = NarrativeResult F × Narrator × World

  narrate-hit :
      (p : Packet F) (f : Bool) (n : Narrator) (w : World) (e : CacheEntry)
      → (worth_narrating p f).0 ≡ true
      → n.enabled ≡ true
      → get_key (fingerprint_of O p) n.cache ≡ some e
      → now w < e.created_at + n.cache_ttl
      → narrate O p f n w
        ≡ (record (blank O p) { text = e.text; model = e.model; cached = true }, n, w)
  unfolding narrate use_cache
  narrate-hit p f n w e worth on found young = rw (worth, on, found, ltb-true _ _ young) refl

  store_completion-narrate :
      (p : Packet F) (f : Bool) (c : Completion) (n : Narrator) (w w2 : World)
      → (worth_narrating p f).0 ≡ true
      → n.enabled ≡ true
      → (store_completion O c p n w).0.skipped ≡ false
      → now w2 < now (store_completion O c p n w).2 + n.cache_ttl
      → narrate O p f (store_completion O c p n w).1 w2 ≡ (
        record (store_completion O c p n w).0 { cached = true },
        (store_completion O c p n w).1,
        w2,
      )
  unfolding store_completion blank skipped_for
  store_completion-narrate p f (errored e) n w w2 worth on kept young = cc
  store_completion-narrate p f (written t) n w w2 worth on kept young =
      let e : CacheEntry = record { text = t; model = n.model; created_at = now w } in
      let m : Narrator = record n { cache = put_key (fingerprint_of O p) e n.cache } in
      narrate-hit p f m w2 e worth on (get_key-put_key (fingerprint_of O p) e n.cache) young

  -- A narrative that is neither skipped nor cached comes from a call of the model.
  Called : Packet F → Narrator → Outcome → World → Type 0
  Called p n r w =
      (m : Narrator) × (m.enabled ≡ true) × (m.cache_ttl ≡ n.cache_ttl) × (r ≡ call_model O p m w)

  use_cache-Called :
      (e : Option CacheEntry) (p : Packet F) (n : Narrator) (w : World)
      → n.enabled ≡ true
      → (use_cache O e p n w).0.cached ≡ false
      → Called p n (use_cache O e p n w) w
  unfolding use_cache Called
  use_cache-Called none p n w on fresh = (n, on, refl, refl)
  use_cache-Called (some e) p n w on fresh =
      elim (Bool-cases (ltb (now w) (e.created_at + n.cache_ttl))) [
        | inl young ↦ clash (rw young at fresh)
        | inr old ↦
            (record n { cache = drop_key (fingerprint_of O p) n.cache }, on, refl, rw old refl)
      ]

  narrate-Called :
      (p : Packet F) (f : Bool) (n : Narrator) (w : World)
      → (narrate O p f n w).0.skipped ≡ false
      → (narrate O p f n w).0.cached ≡ false
      → ((worth_narrating p f).0 ≡ true) × Called p n (narrate O p f n w) w
  unfolding narrate skipped_for blank
  narrate-Called p f n w kept fresh = elim (Bool-cases (worth_narrating p f).0) [
    | inr idle ↦ clash (rw idle at kept)
    | inl worth ↦ elim (Bool-cases n.enabled) [
      | inr off ↦ clash (simp (worth, off) at kept)
      | inl on ↦ (
        worth,
        simp (worth, on)
            (use_cache-Called (get_key (fingerprint_of O p) n.cache) p n w on
              (simp (worth, on) at fresh)),
      )
    ]
  ]

  -- A narrative that was just written is served from the cache until it is too old: the same
  -- packet gives the same text and model with no call, and neither the narrator nor the world
  -- changes.
  pub narrate-narrate :
      (p : Packet F) (f : Bool) (n : Narrator) (w w2 : World)
      → (narrate O p f n w).0.skipped ≡ false
      → (narrate O p f n w).0.cached ≡ false
      → now w2 < now (narrate O p f n w).2 + n.cache_ttl
      → narrate O p f (narrate O p f n w).1 w2
        ≡ (record (narrate O p f n w).0 { cached = true }, (narrate O p f n w).1, w2)
  unfolding call_model Called
  narrate-narrate p f n w w2 kept fresh young =
      let (worth, called) = narrate-Called p f n w kept fresh in
      let (m, on, ttl, e) = called in
      let (c, w1) = complete O m p w in
      rw e (store_completion-narrate p f c m w1 w2 worth on (rw e at kept) (rw ttl (rw e at young)))

  store_completion-packet :
      (c : Completion) (p : Packet F) (n : Narrator) (w : World)
      → (store_completion O c p n w).0.packet ≡ p
  unfolding store_completion skipped_for blank
  store_completion-packet (errored e) p n w = refl
  store_completion-packet (written t) p n w = refl

  use_cache-packet :
      (e : Option CacheEntry) (p : Packet F) (n : Narrator) (w : World)
      → (use_cache O e p n w).0.packet ≡ p
  unfolding use_cache call_model blank
  use_cache-packet none p n w = store_completion-packet _ p n _
  use_cache-packet (some e) p n w = elim (Bool-cases (ltb (now w) (e.created_at + n.cache_ttl))) [
    | inl young ↦ rw young refl
    | inr old ↦ rw old (store_completion-packet _ p _ _)
  ]

  -- A result carries the packet that was asked for.
  pub narrate-packet :
      (p : Packet F) (f : Bool) (n : Narrator) (w : World) → (narrate O p f n w).0.packet ≡ p
  unfolding narrate skipped_for blank
  narrate-packet p f n w = elim (Bool-cases (worth_narrating p f).0) [
    | inr idle ↦ rw idle refl
    | inl worth ↦ elim (Bool-cases n.enabled) [
      | inr off ↦ simp (worth, off) refl
      | inl on ↦ simp (worth, on) (use_cache-packet (get_key (fingerprint_of O p) n.cache) p n w)
    ]
  ]
