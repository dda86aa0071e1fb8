-- ===== src/Explain/Narrator/Spoken.antt =====
-- The texts of the narrator (internal/explain/narrative.go).
use mechmind.Explain.Packet.{worth_narrating, Packet}
use mechmind.Text.{trim_space, text_eq, Text}
use mechmind.Explain.Narrator.{
  user_prompt, system_prompt, replied, unsent, Sent, read_reply, complete, errored, Completion,
  skipped_for, blank, fingerprint_of, choices, unreadable, written, Narrator, store_completion,
  use_cache, call_model, Choices, NarrativeResult, narrate, first_choice, Outside, CacheEntry,
}
use mechmind.Base.{
  clash, Bool-cases, ◌+◌, ◌≤◌, ◌≡◌, refl, sym, inl, inr, Bool, true, false, Option, none, some, [],
  ◌∷◌, arith, ltb, leb, length,
}
use mechmind.Text.Map.{put_key-AllValues, get_key-AllValues, drop_key-AllValues, get_key, AllValues}

pub HasText : CacheEntry → Type 0
HasText e = 1 ≤ length e.text

errored-written {ℓ} : {A : Type ℓ} {e t : Text} → errored e ≡ written t → A
errored-written h = cc

written_inj : {s t : Text} → written s ≡ written t → s ≡ t
written_inj h = cc

nonblank : (s : Text) → text_eq s [] ≡ false → 1 ≤ length s
unfolding text_eq
nonblank [] h = cc
nonblank (c ∷ s) h = omega arith

first_choice-HasText : (c : Choices) (t : Text) → first_choice c ≡ written t → 1 ≤ length t
unfolding first_choice text_eq
first_choice-HasText (unreadable e) t h = cc
first_choice-HasText (choices []) t h = cc
first_choice-HasText (choices (c ∷ cs)) t h = elim (Bool-cases (text_eq (trim_space c) [])) [
  | inl none_left ↦ errored-written (rw none_left at h)
  | inr full ↦ rw⁻¹ (written_inj (rw full at h)) (nonblank (trim_space c) full)
]

module _ {F : Type 0} (O : Outside F) where
  open O use {World, now, marshal, sha256, hex, send, parse}

  -- The result, the narrator and the world after a call.
  abbrev Outcome : Type 0
  Outcome = NarrativeResult F × Narrator × World

  -- What a narrator has said: texts that are not empty, unless it was skipped.
  pub Spoken : Outcome → Type 0
  Spoken r =
      (r.0.skipped ≡ false → 1 ≤ length r.0.text)
      × (r.0.skipped ≡ true → r.0.text ≡ [])
      × AllValues HasText r.1.cache

  store_completion-Spoken :
      (c : Completion) (p : Packet F) (n : Narrator) (w : World)
      → ((t : Text) → c ≡ written t → 1 ≤ length t)
      → AllValues HasText n.cache
      → Spoken (store_completion O c p n w)
  unfolding Spoken store_completion skipped_for blank HasText
  store_completion-Spoken (errored e) p n w full h = (λ k. clash k, λ k. refl, h)
  store_completion-Spoken (written t) p n w full h = (
    λ k. full t refl,
    λ k. clash (sym k),
    put_key-AllValues HasText (fingerprint_of O p) _ n.cache (full t refl) h,
  )

  read_reply-HasText : (r : Sent) (t : Text) → read_reply O r ≡ written t → 1 ≤ length t
  unfolding read_reply
  read_reply-HasText (unsent e) t h = errored-written h
  read_reply-HasText (replied status body) t h = elim (Bool-cases (leb 300 status)) [
    | inl bad ↦ errored-written (rw bad at h)
    | inr good ↦ first_choice-HasText (parse body) t (rw good at h)
  ]

  call_model-Spoken :
      (p : Packet F) (n : Narrator) (w : World)
      → AllValues HasText n.cache
      → Spoken (call_model O p n w)
  unfolding call_model complete
  call_model-Spoken p n w h =
      let (c, w1) = complete O n p w in
      store_completion-Spoken c p n w1
        (read_reply-HasText (send n.base_url n.api_key n.model system_prompt (user_prompt O p) w).0)
        h

  use_cache-Spoken :
      (e : Option CacheEntry) (p : Packet F) (n : Narrator) (w : World)
      → ((v : CacheEntry) → e ≡ some v → HasText v)
      → AllValues HasText n.cache
      → Spoken (use_cache O e p n w)
  unfolding use_cache Spoken HasText blank
  use_cache-Spoken none p n w found h = call_model-Spoken p n w h
  use_cache-Spoken (some e) p n w found h =
      elim (Bool-cases (ltb (now w) (e.created_at + n.cache_ttl))) [
        | inl young ↦ rw young (λ k. found e refl, λ k. clash (sym k), h)
        | inr old ↦
            rw old
              (call_model-Spoken p _ w (drop_key-AllValues HasText (fingerprint_of O p) n.cache h))
      ]

  -- Where no cached text is empty, a result that is not skipped has a text, a skipped one has
  -- none, and no text cached afterwards is empty, whatever the call replied: an error is not
  -- cached.
  pub narrate-Spoken :
      (p : Packet F) (f : Bool) (n : Narrator) (w : World)
      → AllValues HasText n.cache
      → Spoken (narrate O p f n w)
  unfolding narrate Spoken skipped_for blank
  narrate-Spoken p f n w h = elim (Bool-cases (worth_narrating p f).0) [
    | inr idle ↦ rw idle (λ k. clash k, λ k. refl, h)
    | inl worth ↦ elim (Bool-cases n.enabled) [
      | inr off ↦ simp (worth, off) (λ k. clash k, λ k. refl, h)
      | inl on ↦
          simp (worth, on)
            (use_cache-Spoken (get_key (fingerprint_of O p) n.cache) p n w
              (λ v e. get_key-AllValues HasText (fingerprint_of O p) n.cache v h e) h)
    ]
  ]
