-- ===== src/Tests/Explain.antt =====
-- Runs of the packets and of the narrator (internal/explain), and of explainCode.
use mechmind.Store.{holds}
use mechmind.Api.Explain.Answers.{explain_code-IsAnswered, IsAnswered}
use mechmind.Api.{Claims}
use mechmind.Api.Explain.{explain_code, ExplainRequest, Desk, Library}
use mechmind.Base.{ℕ, All, ◌+◌, ◌<◌, ◌≡◌, refl, true, false, none, some, [], ◌∷◌, arith}
use mechmind.Base.Int.{ℤ}
use mechmind.Text.{Text, codes}
use mechmind.Http.{replied}
use mechmind.Explain.Packet.{Packet, BuildInput}
use mechmind.Explain.Narrator.{choices, CacheEntry, Outside, Narrator, new_narrator, narrate}
use mechmind.Explain.Narrator.Cache.{narrate-narrate}
use mechmind.Explain.Narrator.Spoken.{narrate-Spoken, Spoken, HasText}
use mechmind.Diagnosis.Analyze.{analyze}
use mechmind.Tests.Numbers.{whole}
use mechmind.Tests.Diagnoses.{misfiring, show_ℤ, unread}

abbrev asked : BuildInput ℤ
asked = record {
  code = codes "p0300";
  findings = analyze whole show_ℤ unread misfiring;
  article = some (record {
    code = codes "P0300";
    vehicle_scope = codes "*";
    title = codes "Random misfire";
    summary = codes "Check the coils first. Then the plugs.";
    likely_causes = codes "coil" ∷ codes "plug" ∷ codes "leak" ∷ codes "fuel" ∷ [];
    tests = [];
    parts = [];
  });
  vehicle = none;
  co_occur = misfiring.co_occur;
  history = [];
}

-- A model that always answers, and whose calls are counted as nanoseconds.
abbrev pub talkative : Outside ℤ
talkative = record {
  World = ℕ;
  now = λ w. w;
  marshal = λ p. p.code;
  sha256 = λ t. t;
  hex = λ t. t;
  send = λ url key model system user w. (replied 200 (codes " Swap the coil. "), w + 1);
  parse = λ t. choices (t ∷ []);
}

abbrev teller : Narrator
teller = new_narrator true (codes "key") [] []

abbrev packet : Packet ℤ
packet = record {
  code = codes "P0300";
  vehicle = [];
  findings = [];
  kb = none;
  co_occur = [];
  history = [];
  ask = [];
}

told : (narrate talkative packet true teller 0).0.skipped ≡ false
unfolding narrate new_narrator
told = refl

fresh : (narrate talkative packet true teller 0).0.cached ≡ false
unfolding narrate new_narrator
fresh = refl

soon : 9 < (narrate talkative packet true teller 0).2 + teller.cache_ttl
unfolding narrate new_narrator
soon = omega arith

narrate-narrate_example :
    narrate talkative packet true (narrate talkative packet true teller 0).1 9 ≡ (
      record (narrate talkative packet true teller 0).0 { cached = true },
      (narrate talkative packet true teller 0).1,
      9,
    )
narrate-narrate_example = narrate-narrate talkative packet true teller 0 9 told fresh soon

empty : All (λ (e : Text × CacheEntry). HasText e.1) teller.cache
unfolding new_narrator
empty = tt

narrate-Spoken_example : Spoken talkative (narrate talkative packet true teller 0)
narrate-Spoken_example = narrate-Spoken talkative packet true teller 0 empty

-- A library with one article, and a narrator that answers.
abbrev pub library : Library ℤ
library = record {
  Shelf = ℕ;
  explain_code = λ code vin org s. (
    holds (record {
      code = code;
      generic = [];
      article = asked.article;
      history = [];
      vehicle = none;
      recalls = [];
      market_note = [];
      observations = none;
      co_occurrence = misfiring.co_occur;
    }),
    s + 1,
  );
  latest_dtcs = λ vin org s. (holds misfiring.dtcs, s + 1);
  org_uuid = λ t. t;
}

abbrev mechanic : Claims
mechanic = record {
  technician_id = codes "t1";
  org_id = codes "o1";
  email = codes "a@b";
  role = codes "technician";
}

abbrev pub question : ExplainRequest
question = record {
  code = codes "p0300";
  vin = codes "WVWZZZ1JZXW000001";
  narrative = codes "1";
  force_narrative = [];
}

abbrev pub desk : Desk ℕ ℕ
desk = record { shelf = 0; narrator = some teller; world = 0 }

explain_code-IsAnswered_example :
    IsAnswered whole show_ℤ unread library talkative mechanic question
      (library.explain_code (codes "p0300") (codes "WVWZZZ1JZXW000001") (some (codes "o1")) 0)
      desk
      (explain_code whole show_ℤ unread library talkative mechanic question desk)
explain_code-IsAnswered_example =
    explain_code-IsAnswered whole show_ℤ unread library talkative mechanic question desk
