-- ===== src/Baseline/Store/Reliable.antt =====
-- A Redis that answers: what a saved baseline reads back as.
use anomaly_detection.Prelude.{◌≡◌, refl, ◌∙◌, ap, String, true, false, some, [], ◌∷◌, ◌==◌}
use anomaly_detection.Float64.{Float64}
use anomaly_detection.Labels.{Labels, lookup, get}
use anomaly_detection.Baseline.{BaselineConfig, Stats, HashStore, Strconv, IsRoundTrip}
use anomaly_detection.Baseline.Store.{write_stats, parse_stats, stats_of_fields, load}

-- The documented behaviour of HGETALL and HSET on a server that is up: HSET sets the fields that
-- it is given, in the hash of its key alone, and HGETALL returns the fields of a hash.
pub record IsReliable {R : Type 0} (hashes : HashStore R) : Type 0 where
  pub writes : (r : R) (key : String) (fields : Labels) → (hashes.hset r key fields).1 ≡ true
  pub sets :
      (r : R) (key : String) (fields : Labels)
      → (m : Labels) × (hashes.hget_all (hashes.hset r key fields).0 key ≡ some m)
        × ((f v : String) → lookup f fields ≡ some v → lookup f m ≡ some v)
  pub keeps :
      (r : R) (key other : String) (fields : Labels)
      → (key == other) ≡ false
      → hashes.hget_all (hashes.hset r key fields).0 other ≡ hashes.hget_all r other

-- equal statistics but for the time of the last update
pub record SameStats {F : Type 0} (a b : Stats F) : Type 0 where
  pub mean : a.mean ≡ b.mean
  pub stddev : a.stddev ≡ b.stddev
  pub ewma : a.ewma ≡ b.ewma
  pub count : a.count ≡ b.count

pub get_of_lookup : (k : String) {v : String} (m : Labels) → lookup k m ≡ some v → get m k ≡ v
unfolding get
get_of_lookup k m h = rw h

module _ {F : Type 0} ⦃fl : Float64 F⦄ (conv : Strconv F) (exact : IsRoundTrip conv) where
  fields_read_back :
      (stats : Stats F) (m : Labels)
      → ((f v : String) → lookup f (write_stats conv stats) ≡ some v → lookup f m ≡ some v)
      → SameStats (parse_stats conv m) stats
  unfolding write_stats parse_stats lookup
  fields_read_back stats m h = record {
    mean = ap conv.parse_float (get_of_lookup "mean" m (h "mean" _ refl)) ∙ exact.floats stats.mean;
    stddev =
        ap conv.parse_float (get_of_lookup "stddev" m (h "stddev" _ refl))
        ∙ exact.floats stats.stddev;
    ewma = ap conv.parse_float (get_of_lookup "ewma" m (h "ewma" _ refl)) ∙ exact.floats stats.ewma;
    count = ap conv.parse_int (get_of_lookup "count" m (h "count" _ refl)) ∙ exact.ints stats.count;
  }

  stats_read_back :
      (stats : Stats F) (m : Labels)
      → ((f v : String) → lookup f (write_stats conv stats) ≡ some v → lookup f m ≡ some v)
      → SameStats (stats_of_fields conv m) stats
  unfolding stats_of_fields write_stats lookup
  stats_read_back stats [] h = cc (h "mean" (conv.format_float stats.mean) refl)
  stats_read_back stats (f ∷ m) h = fields_read_back stats (f ∷ m) h

  module _ {R : Type 0} (hashes : HashStore R) (digest : String → String) (cfg : BaselineConfig F)
      (reliable : IsReliable hashes) where
    -- A baseline that was saved reads back with its mean, deviation, EWMA and count, and no save
    -- changes what the key of another series reads as.
    pub load-hset :
        (r : R) (key : String) (stats : Stats F)
        → let r' = (hashes.hset r key (write_stats conv stats)).0 in
          ((read : Stats F) × (load conv hashes digest cfg key r' ≡ some read)
            × SameStats read stats)
          × ((other : String)
              → (key == other) ≡ false
              → load conv hashes digest cfg other r' ≡ load conv hashes digest cfg other r)
    unfolding load
    load-hset r key stats =
        let (m, read, fields) = reliable.sets r key (write_stats conv stats) in
        (
          (stats_of_fields conv m, rw (read, load), stats_read_back stats m fields),
          λ other ne. rw (reliable.keeps r key other (write_stats conv stats) ne, load),
        )
