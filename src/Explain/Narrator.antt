-- ===== src/Explain/Narrator.antt =====
-- The narrator with its cache (internal/explain/narrative.go, and Fingerprint, SystemPrompt and
-- UserPrompt of packet.go). What it calls is a parameter: JSON, SHA-256, the HTTP client, the
-- clock.
pub mod Cache
pub mod Spoken
use mechmind.Http.{replied, unsent, trim_slashes, Sent}
use mechmind.Base.{
  take, ℕ, ◌+◌, ◌-◌, ◌/◌, Bool, true, false, not, ◌&&◌, Option, none, some, List, [], ◌∷◌, ◌++◌,
  ltb, leb, if◌then◌else◌, length,
}
use mechmind.Text.{trim_space, show_nat, codes, text_eq, Text}
use mathlib.Core.List.{set, reverse}
use mechmind.Text.Map.{get_key, put_key, drop_key}
use mechmind.Explain.Packet.{Packet, worth_narrating}

-- What JSON gives of the body: an error, or the contents of the choices.
pub data Choices : Type 0 where
  unreadable : Text → Choices
  choices : List Text → Choices

pub record Outside (F : Type 0) : Type 1 where
  pub World : Type 0
  -- Nanoseconds.
  pub now : World → ℕ
  pub marshal : Packet F → Text
  pub sha256 : Text → Text
  pub hex : Text → Text
  -- The base URL, the key, the model and the two prompts.
  pub send : Text → Text → Text → Text → Text → World → Sent × World
  pub parse : Text → Choices

pub record CacheEntry : Type 0 where
  pub text : Text
  pub model : Text
  pub created_at : ℕ

pub record Narrator : Type 0 where
  pub enabled : Bool
  pub api_key : Text
  pub base_url : Text
  pub model : Text
  pub cache : List (Text × CacheEntry)
  pub cache_ttl : ℕ

abbrev or_default : Text → Text → Text
or_default [] d = d
or_default (c ∷ s) d = c ∷ s

unfoldable pub new_narrator : Bool → Text → Text → Text → Narrator
unfolding trim_slashes text_eq
new_narrator enabled key url model = record {
  enabled = enabled && not (text_eq key []);
  api_key = key;
  base_url = trim_slashes (or_default url (codes "https://api.openai.com/v1"));
  model = or_default model (codes "gpt-4o-mini");
  cache = [];
  cache_ttl = 86400000000000;
}

pub record NarrativeResult (F : Type 0) : Type 0 where
  pub text : Text
  pub model : Text
  pub cached : Bool
  pub skipped : Bool
  pub skip_reason : Text
  pub fingerprint : Text
  pub packet : Packet F

-- `truncate`.
unfoldable pub truncate : Text → ℕ → Text
truncate s n = if leb (length s) n then s else take n s

pub system_prompt : Text
system_prompt =
    codes "You are MechMind, a technician triage assistant.\n"
    ++ codes "Use ONLY the JSON CONTEXT the user provides.\n"
    ++ codes "If CONTEXT is insufficient, say so briefly.\n"
    ++ codes "Cite finding ids in parentheses when you rely on them.\n"
    ++ codes "Never invent DTCs, sensor values, or parts not present in CONTEXT.\n"
    ++ codes "Keep the answer concise for a busy bay."

-- A completion, or its error.
pub data Completion : Type 0 where
  errored : Text → Completion
  written : Text → Completion

-- The choices of a reply: the first one must hold more than blanks.
unfoldable pub first_choice : Choices → Completion
unfolding trim_space text_eq
first_choice (unreadable e) = errored e
first_choice (choices []) = errored (codes "empty llm response")
first_choice (choices (c ∷ cs)) =
    if text_eq (trim_space c) []
    then errored (codes "empty llm response")
    else written (trim_space c)

module _ {F : Type 0} (O : Outside F) where
  open O use {World, now, marshal, sha256, hex, send, parse}

  unfoldable pub fingerprint_of : Packet F → Text
  fingerprint_of p = hex (take 16 (sha256 (marshal p)))

  pub user_prompt : Packet F → Text
  user_prompt p = codes "CONTEXT:\n" ++ marshal p

  -- What `complete` makes of the end of the call.
  unfoldable pub read_reply : Sent → Completion
  unfolding truncate first_choice show_nat
  read_reply (unsent e) = errored e
  read_reply (replied status body) =
      if leb 300 status
      then errored (codes "http " ++ show_nat status ++ codes ": " ++ truncate body 200)
      else first_choice (parse body)

  unfoldable pub complete : Narrator → Packet F → World → Completion × World
  unfolding read_reply user_prompt system_prompt
  complete n p w =
      let (r, w1) = send n.base_url n.api_key n.model system_prompt (user_prompt p) w in
      (read_reply r, w1)

  -- Nothing yet: the packet and its fingerprint.
  pub blank : Packet F → NarrativeResult F
  unfolding fingerprint_of
  blank p = record {
    text = [];
    model = [];
    cached = false;
    skipped = false;
    skip_reason = [];
    fingerprint = fingerprint_of p;
    packet = p;
  }

  unfoldable pub skipped_for : Packet F → Text → NarrativeResult F
  unfolding blank
  skipped_for p reason = record (blank p) { skipped = true; skip_reason = reason }

  -- The result of a completion: a text is stored, an error is not.
  unfoldable pub store_completion :
      Completion → Packet F → Narrator → World → NarrativeResult F × Narrator × World
  unfolding blank skipped_for put_key
  store_completion (errored e) p n w = (skipped_for p (codes "llm_error: " ++ e), n, w)
  store_completion (written t) p n w = (
    record (blank p) { text = t; model = n.model },
    record n {
      cache =
          put_key (fingerprint_of p) (record { text = t; model = n.model; created_at = now w })
            n.cache;
    },
    w,
  )

  unfoldable pub call_model : Packet F → Narrator → World → NarrativeResult F × Narrator × World
  unfolding complete store_completion
  call_model p n w = let (c, w1) = complete n p w in store_completion c p n w1

  -- An entry that is too old is dropped.
  unfoldable pub use_cache :
      Option CacheEntry → Packet F → Narrator → World → NarrativeResult F × Narrator × World
  unfolding call_model drop_key
  use_cache none p n w = call_model p n w
  use_cache (some e) p n w =
      if ltb (now w) (e.created_at + n.cache_ttl)
      then (record (blank p) { text = e.text; model = e.model; cached = true }, n, w)
      else call_model p (record n { cache = drop_key (fingerprint_of p) n.cache }) w

  -- `Narrate`, of a narrator that is not nil.
  unfoldable pub narrate : Packet F → Bool → Narrator → World → NarrativeResult F × Narrator × World
  unfolding worth_narrating use_cache get_key
  narrate p force n w =
      let (worth, reason) = worth_narrating p force in
      if not worth
      then (skipped_for p reason, n, w)
      else if not n.enabled
      then (skipped_for p (codes "llm_disabled"), n, w)
      else use_cache (get_key (fingerprint_of p) n.cache) p n w
