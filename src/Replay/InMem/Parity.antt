-- ===== src/Replay/InMem/Parity.antt =====
-- The replay store against the production store: over a Redis that answers, and for labels that
-- the production store does not normalise, the two give the same results.
use Prim.Native.String.{◌++◌}
use text.Mathlib.TextLemmas.{append_cancel_left}
use anomaly_detection.Prelude.{
  ◌≡◌, refl, sym, ◌∙◌, ap, String, false, Option, none, some, List, [], ◌∷◌, ◌==◌, inl, inr, arith,
  Bool-cases, eq_iff, All, if◌then◌else◌,
}
use mathlib.Core.Path.{subst, ap₂}
use anomaly_detection.Float64.{Float64}
use anomaly_detection.Labels.{lookup}
use anomaly_detection.Baseline.{BaselineConfig, Stats, Outcome, HashStore, Strconv, IsRoundTrip}
use anomaly_detection.Baseline.Keys.{normalize_labels, baseline_key}
use anomaly_detection.Baseline.Store.{StoreState, load, evaluate_loaded, evaluate_store}
use anomaly_detection.Baseline.Store.Calls.{
  before, call_lem, series_key, redis-record_series_tracked,
}
use anomaly_detection.Baseline.Store.Reliable.{IsReliable, load-hset}
use anomaly_detection.Replay.InMem.{step_series, evaluate_in_mem}
use anomaly_detection.Replay.InMem.Series.{Reading, key_of, after, evaluate_in_mem_frame}
use anomaly_detection.Replay.InMem.Mirrors.{key_prefix, written, Tracks, Tracks-Mirrors}

module _ {F R : Type 0} ⦃fl : Float64 F⦄ (conv : Strconv F) (exact : IsRoundTrip conv)
    (hashes : HashStore R) (reliable : IsReliable hashes) (digest : String → String)
    (cfg : BaselineConfig F) where
  abbrev pub prefixed : String → String
  prefixed key = "baseline:" ++ key

  -- the server and the map of the replay hold the same statistics for every series
  abbrev pub Agree : R → List (String × Stats F) → Type 0
  Agree r series =
      (key : String)
      → Tracks conv hashes reliable digest cfg (load conv hashes digest cfg (prefixed key) r)
          (lookup key series)

  prefixed_ne : (a b : String) → (a == b) ≡ false → (prefixed a == prefixed b) ≡ false
  prefixed_ne a b h = elim (Bool-cases (prefixed a == prefixed b)) [
    | inl e ↦ cc (h, (eq_iff a b).1 (append_cancel_left "baseline:" a b ((eq_iff _ _).0 e)))
    | inr e ↦ e
  ]

  Agree-written :
      (key : String) (new : Option (Stats F)) (r : R) (old series : List (String × Stats F))
      → ((k : String)
          → lookup k series ≡ (if key == k then after (lookup k old) new else lookup k old))
      → Agree r old
      → Agree (written conv hashes reliable digest cfg (prefixed key) new r) series
  Agree-written key none r old series h a k =
      let same : lookup k series ≡ lookup k old = h k ∙ ground arith in
      subst (Tracks conv hashes reliable digest cfg (load conv hashes digest cfg (prefixed k) r))
        (sym same) (a k)
  Agree-written key (some stats) r old series h a k = elim (Bool-cases (key == k)) [
    | inl e ↦
        let ((read, at, same), _) =
          load-hset conv exact hashes digest cfg reliable r (prefixed key) stats in
        let at' : load conv hashes digest cfg (prefixed k)
              (written conv hashes reliable digest cfg (prefixed key) (some stats) r)
            ≡ some read =
          subst
            (λ x.
              load conv hashes digest cfg (prefixed x)
                (written conv hashes reliable digest cfg (prefixed key) (some stats) r)
              ≡ some read)
            ((eq_iff key k).0 e) at in
        rw (h k, e, at') same
    | inr e ↦
        let (_, keeps) = load-hset conv exact hashes digest cfg reliable r (prefixed key) stats in
        rw (h k, e, keeps (prefixed k) (prefixed_ne key k e)) (a k)
  ]

  abbrev pub IsPlain : Reading F → Type 0
  IsPlain s = normalize_labels cfg.ephemeral_labels s.labels ≡ s.labels

  abbrev pub store_call : Reading F → StoreState R → Outcome F × StoreState R
  store_call s = evaluate_store conv hashes digest cfg s.metric s.labels s.value s.now

  abbrev pub replay_call : Reading F → List (String × Stats F) → Outcome F × List (String × Stats F)
  replay_call s = evaluate_in_mem digest cfg s.metric s.labels s.value s.now

  call_parity :
      (s : Reading F) (b : StoreState R) (series : List (String × Stats F))
      → IsPlain s
      → Agree b.redis series
      → ((store_call s b).0 ≡ (replay_call s series).0)
        × Agree (store_call s b).1.redis (replay_call s series).1
  call_parity s b series plain a =
      let key = key_of digest cfg s in
      let entry = lookup key series in
      let bb = before conv hashes digest cfg s.metric s.labels s.value s.now b in
      let redis : bb.redis ≡ b.redis = redis-record_series_tracked _ _ in
      let name : series_key conv hashes digest cfg s.metric s.labels s.value s.now b
          ≡ prefixed key =
        ap (baseline_key digest s.metric) plain ∙ key_prefix digest s.metric s.labels in
      let at_key : store_call s b
          ≡ evaluate_loaded conv hashes digest cfg (prefixed key) s.value s.now bb
              (load conv hashes digest cfg (prefixed key) b.redis) =
        call_lem conv hashes digest cfg s.metric s.labels s.value s.now b
        ∙ ap
            (λ k.
              evaluate_loaded conv hashes digest cfg k s.value s.now bb
                (load conv hashes digest cfg k b.redis))
            name in
      let (result, left) =
        Tracks-Mirrors conv hashes reliable digest cfg (prefixed key) s.value s.now bb
          (load conv hashes digest cfg (prefixed key) b.redis) entry (a key) in
      let step = step_series cfg entry s.value s.now in
      (
        ap (λ x. x.0) at_key ∙ result ∙ sym (evaluate_in_mem_frame digest cfg s series key).0,
        subst (λ r. Agree r (replay_call s series).1)
            (sym (
              ap (λ x. x.1.redis) at_key
              ∙ left
              ∙ ap (written conv hashes reliable digest cfg (prefixed key) step.1) redis))
            (Agree-written key step.1 b.redis series (replay_call s series).1
              (λ k. (evaluate_in_mem_frame digest cfg s series k).1) a),
      )

  -- the outcomes of a sequence of readings
  unfoldable pub store_outcomes : List (Reading F) → StoreState R → List (Outcome F)
  store_outcomes [] b = []
  store_outcomes (s ∷ rest) b = let (o, b') = store_call s b in o ∷ store_outcomes rest b'

  unfoldable pub replay_outcomes : List (Reading F) → List (String × Stats F) → List (Outcome F)
  replay_outcomes [] series = []
  replay_outcomes (s ∷ rest) series =
      let (o, series') = replay_call s series in o ∷ replay_outcomes rest series'

  -- Over a server that answers, number formats that read back exactly, and label sets that the
  -- production store does not normalise, a replay gives the production results reading by reading:
  -- from stores that hold the same statistics, all outcomes of any sequence of readings are equal.
  pub replay_parity :
      (readings : List (Reading F)) (b : StoreState R) (series : List (String × Stats F))
      → All IsPlain readings
      → Agree b.redis series
      → store_outcomes readings b ≡ replay_outcomes readings series
  unfolding store_outcomes replay_outcomes
  replay_parity [] b series plain a = refl
  replay_parity (s ∷ rest) b series plain a =
      let (same, agree) = call_parity s b series plain.0 a in
      ap₂ ◌∷◌ same (replay_parity rest (store_call s b).1 (replay_call s series).1 plain.1 agree)
