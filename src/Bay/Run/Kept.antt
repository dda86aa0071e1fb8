-- ===== src/Bay/Run/Kept.antt =====
-- What a run does to the places of the jobs (cmd/bayui/server.go: runScan, apiJSON).
use mechmind.Bay.Heap.{update-some, at}
use mechmind.Bay.Jobs.{on_job, note_job, note}
use mechmind.Http.{trim_slashes, Result, gives, fails}
use mechmind.Bay.Run.{explain_all, note_world, with_code, coded, Explanations}
use mechmind.Bay.{BayServer, ScanJob}
use mechmind.Obd.Types.{Dtc}
use mechmind.Bay.Client.{
  read_answer, token_for, unless_rejected, explain, api_json, send_request, Host,
}
use mechmind.Base.{
  false, some_none, Option-cases, inl, inr, ◌⊎◌, sym, refl, ℕ, ◌≡◌, Option, none, some, List, [],
  ◌∷◌, ◌++◌,
}
use mechmind.Text.{Text, codes}

module _ {F W : Type 0} (H : Host F W) where
  open H use {Doc, bay, put_bay, stamp, exchange}

  -- The job i is there.
  unfoldable pub HasJob : ℕ → W → Type 0
  HasJob i w = (j : ScanJob F Doc) × (at i (bay w).jobs ≡ some j)

  on_job-some :
      (i : ℕ) (f : ScanJob F Doc → ScanJob F Doc) (o : Option ℕ) (b : BayServer F Doc)
      → ((j : ScanJob F Doc) × (at i b.jobs ≡ some j))
      → (j : ScanJob F Doc) × (at i (on_job o f b).jobs ≡ some j)
  on_job-some i f none b h = h
  on_job-some i f (some k) b h = update-some i k f b.jobs h

  pub note_world-HasJob :
      (i : ℕ) (phase : Text) (w : W) → HasJob i w → HasJob i (note_world H phase w)
  unfolding HasJob note_world note
  note_world-HasJob i phase w h =
      rw (H.bay-put_bay (note (stamp w) phase (bay w)) w)
        (on_job-some i (note_job (stamp w) phase) (bay w).job (bay w) h)

  -- The exchange with the API, in which other handlers may run, leaves the job in its place.
  unfoldable pub KeepsJobs : Type 0
  KeepsJobs =
      (i : ℕ) (method url : Text) (body token : Option Text) (w : W)
      → HasJob i w
      → HasJob i (exchange method url body token w).1

  unless_rejected-HasJob :
      (i : ℕ) (o : Option Text) (w : W) (r : Result Doc × W)
      → HasJob i w
      → HasJob i r.1
      → HasJob i (unless_rejected H o w r).1
  unless_rejected-HasJob i none w r h k = k
  unless_rejected-HasJob i (some e) w r h k = h

  send_request-HasJob :
      KeepsJobs
      → (i : ℕ) (method path : Text) (body : Option Text) (w : W) → HasJob i w
      → HasJob i (send_request H method path body w).1
  unfolding send_request KeepsJobs
  send_request-HasJob keeps i method path body w h =
      let url = trim_slashes (bay w).api_url ++ path in
      let token = token_for (bay w).token path in
      unless_rejected-HasJob i (H.check_request method url) w
        (
          read_answer H (bay w).api_url (exchange method url body token w).0,
          (exchange method url body token w).1,
        )
        h (keeps i method url body token w h)

  pub api_json-HasJob :
      KeepsJobs
      → (i : ℕ) (method path : Text) (body : Option (Result Text)) (w : W) → HasJob i w
      → HasJob i (api_json H method path body w).1
  unfolding api_json
  api_json-HasJob keeps i method path none w h = send_request-HasJob keeps i method path none w h
  api_json-HasJob keeps i method path (some (fails e)) w h = h
  api_json-HasJob keeps i method path (some (gives raw)) w h =
      send_request-HasJob keeps i method path (some raw) w h

  coded-HasJob :
      (i : ℕ) (code : Text) (o : Option (Result Doc)) (w : W) (rest : Option (Explanations H) × W)
      → HasJob i w
      → HasJob i rest.1
      → HasJob i (coded H code o w rest).1
  coded-HasJob i code none w rest h k = h
  coded-HasJob i code (some r) w rest h k = k

  -- The API has answered the explanation of a code with a document that no code can be put into,
  -- which is a JSON null.
  IsNullAnswered : Text → Text → Type 0
  IsNullAnswered vin code =
      (w : W) × (doc : Doc) × ((explain H code vin false w).0 ≡ gives doc)
      × (H.with_text (codes "code") code doc ≡ none)

  -- The same of one of these codes.
  pub HasNullAnswer : Text → List (Dtc F) → Type 0
  HasNullAnswer vin [] = ⊥
  HasNullAnswer vin (d ∷ ds) = IsNullAnswered vin d.code ⊎ HasNullAnswer vin ds

  with_code-IsNullAnswered :
      (vin code : Text) (w : W) (r : Result Doc)
      → (explain H code vin false w).0 ≡ r
      → with_code H code r ≡ none
      → IsNullAnswered vin code
  unfolding IsNullAnswered
  with_code-IsNullAnswered vin code w (fails e) q h = some_none (sym h)
  with_code-IsNullAnswered vin code w (gives doc) q h =
      elim (Option-cases (H.with_text (codes "code") code doc)) [
        | inl nil ↦ (w, doc, q, nil)
        | inr (d, put) ↦ some_none (sym (rw put at h))
      ]

  coded-HasNullAnswer :
      (vin : Text) (d : Dtc F) (ds : List (Dtc F)) (w w1 : W) (r : Result Doc)
      → (rest : Option (Explanations H) × W) → (explain H d.code vin false w).0 ≡ r
      → (rest.0 ≡ none → HasNullAnswer vin ds)
      → (coded H d.code (with_code H d.code r) w1 rest).0 ≡ none
      → HasNullAnswer vin (d ∷ ds)
  unfolding HasNullAnswer
  coded-HasNullAnswer vin d ds w w1 r (o, w2) q later h =
      elim (Option-cases (with_code H d.code r)) [
        | inl nil ↦ inl (with_code-IsNullAnswered vin d.code w r q nil)
        | inr (x, put) ↦ elim (Option-cases o) [
          | inl nil ↦ inr (later nil)
          | inr (xs, more) ↦ some_none (sym (rw (put, more) at h))
        ]
      ]

  -- Only such an answer ends the explanations of the codes with a panic.
  pub explain_all-HasNullAnswer :
      (vin : Text) (ds : List (Dtc F)) (w : W)
      → (explain_all H vin ds w).0 ≡ none
      → HasNullAnswer vin ds
  unfolding explain_all
  explain_all-HasNullAnswer vin [] w h = some_none (sym h)
  explain_all-HasNullAnswer vin (d ∷ ds) w h =
      let asked = note_world H (codes "Explaining " ++ d.code) w in
      let (r, w1) = explain H d.code vin false asked in
      coded-HasNullAnswer vin d ds asked w1 r (explain_all H vin ds w1) refl
        (explain_all-HasNullAnswer vin ds w1) h

  pub explain_all-HasJob :
      KeepsJobs
      → (i : ℕ) (vin : Text) (ds : List (Dtc F)) (w : W) → HasJob i w
      → HasJob i (explain_all H vin ds w).1
  unfolding explain_all explain
  explain_all-HasJob keeps i vin [] w h = h
  explain_all-HasJob keeps i vin (d ∷ ds) w h =
      let (r, w1) = explain H d.code vin false (note_world H (codes "Explaining " ++ d.code) w) in
      let here =
        api_json-HasJob keeps i _ _ none _
          (note_world-HasJob i (codes "Explaining " ++ d.code) w h) in
      coded-HasJob i d.code (with_code H d.code r) w1 (explain_all H vin ds w1) here
        (explain_all-HasJob keeps i vin ds w1 here)
