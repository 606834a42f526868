-- ===== src/Tests/Servers.antt =====
-- Concrete parameters: a Redis that keeps its hashes in a list, a printer that is its own inverse, a
-- deduplication store, and a configuration.
use anomaly_detection.Prelude.{
  ℕ, zero, suc, ◌+◌, ◌≡◌, ◌<◌, refl, ap, ◌∙◌, String, Bool, true, false, Option, none, some, List,
  [], ◌∷◌, ◌==◌, eq_iff, Bool-cases, inl, inr, leb, arith, if◌then◌else◌,
}
use anomaly_detection.Prelude.Int.{pos, negsuc}
use anomaly_detection.Float64.Nano.{Nano, nano}
use anomaly_detection.Labels.{Labels, lookup, insert, lookup-insert}
use anomaly_detection.Baseline.{BaselineConfig, HashStore, Strconv, IsRoundTrip}
use anomaly_detection.Baseline.Store.Reliable.{IsReliable}
use anomaly_detection.Correlation.Correlator.Finalize.{DedupStore}
use anomaly_detection.Correlation.Correlator.Finalize.Cooldown.{IsRemembering}

-- HSET on the fields of one hash
abbrev set_fields : Labels → Labels → Labels
set_fields [] m = m
set_fields ((f, v) ∷ fields) m = insert f v (set_fields fields m)

abbrev hash_of : Option Labels → Labels
hash_of none = []
hash_of (some m) = m

abbrev pub Hashes : Type 0
Hashes = List (String × Labels)

abbrev pub list_store : HashStore Hashes
list_store = record {
  hget_all = λ r key. some (hash_of (lookup key r));
  hset = λ r key fields. (insert key (set_fields fields (hash_of (lookup key r))) r, true);
}

lookup-set_fields :
    (fields m : Labels) (f v : String)
    → lookup f fields ≡ some v
    → lookup f (set_fields fields m) ≡ some v
unfolding lookup
lookup-set_fields [] m f v h = cc
lookup-set_fields ((k, w) ∷ fields) m f v h = elim (Bool-cases (k == f)) [
  | inl e ↦ rw (lookup-insert k f w (set_fields fields m), e) (rw e at h)
  | inr e ↦
      rw (lookup-insert k f w (set_fields fields m), e) (lookup-set_fields fields m f v (rw e at h))
]

pub list_store-IsReliable : IsReliable list_store
list_store-IsReliable = record {
  writes = λ r key fields. refl;
  sets = λ r key fields. (
    set_fields fields (hash_of (lookup key r)),
    ap (λ o. some (hash_of o))
        (lookup-insert key key (set_fields fields (hash_of (lookup key r))) r
          ∙ ap (λ b. if b then some (set_fields fields (hash_of (lookup key r))) else lookup key r)
              ((eq_iff key key).1 refl)),
    λ f v h. lookup-set_fields fields (hash_of (lookup key r)) f v h,
  );
  keeps = λ r key other fields ne.
      ap (λ o. some (hash_of o))
        (lookup-insert key other (set_fields fields (hash_of (lookup key r))) r
          ∙ ap
              (λ b. if b then some (set_fields fields (hash_of (lookup key r))) else lookup other r)
              ne);
}

-- numbers in unary
abbrev marks : ℕ → String
marks zero = ""
marks (suc n) = String.◌∷◌ "1" (marks n)

abbrev size : String → ℕ
size String.[] = 0
size (String.◌∷◌ c s) = suc (size s)

size-marks : (n : ℕ) → size (marks n) ≡ n
size-marks zero = refl
size-marks (suc n) = ap suc (size-marks n)

abbrev print_nano : Nano → String
print_nano (pos n) = String.◌∷◌ "+" (marks n)
print_nano (negsuc n) = String.◌∷◌ "-" (marks n)

abbrev read_nano : String → Nano
read_nano String.[] = pos 0
read_nano (String.◌∷◌ c s) = if String.◌∷◌ c "" == "+" then pos (size s) else negsuc (size s)

abbrev pub unary : Strconv Nano
unary = record {
  format_float = print_nano;
  parse_float = read_nano;
  format_int = marks;
  parse_int = size;
}

print_nano_back : (x : Nano) → read_nano (print_nano x) ≡ x
print_nano_back (pos n) = ap pos (size-marks n)
print_nano_back (negsuc n) = ap negsuc (size-marks n)

pub unary-IsRoundTrip : IsRoundTrip unary
unary-IsRoundTrip = record { floats = print_nano_back; ints = size-marks }

-- a deduplication store of the keys with the times at which they expire
abbrev live : ℕ → Option ℕ → Bool
live now none = false
live now (some t) = leb (suc now) t

abbrev pub list_dedup : DedupStore (List (String × ℕ))
list_dedup = record {
  exists = λ d now key. some (live now (lookup key d));
  set_with_ttl = λ d now key value ttl. (insert key (now + ttl) d, true);
}

still_live : (now t : ℕ) → now < t → live now (some t) ≡ true
still_live now t h = ground arith

pub list_dedup-IsRemembering : IsRemembering list_dedup
list_dedup-IsRemembering = record {
  remembers = λ d now later key value ttl h. ap some (
      ap (live later) (
        lookup-insert key key (now + ttl) d
        ∙ ap (λ b. if b then some (now + ttl) else lookup key d) ((eq_iff key key).1 refl))
      ∙ still_live later (now + ttl) h);
  keeps = λ d now later key other value ttl ne.
      ap (λ o. some (live later o))
        (lookup-insert key other (now + ttl) d
          ∙ ap (λ b. if b then some (now + ttl) else lookup other d) ne);
}

abbrev pub config : BaselineConfig Nano
config = record {
  ewma_alpha = nano.lit 3 10;
  zscore_threshold = nano.lit 3 1;
  poison_threshold = nano.lit 5 1;
  warm_up_samples = 2;
  seasonal_min_days = 7;
  ephemeral_labels = "instance" ∷ [];
}

abbrev pub digest_of : String → String
digest_of s = s
