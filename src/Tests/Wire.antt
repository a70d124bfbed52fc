-- ===== src/Tests/Wire.antt =====
-- A serialisation of flat objects that loads what it dumped: numbers in front of what they count.
use jd_relay.Common.{
  ℕ, zero, suc, ◌≡◌, refl, List, [], ◌∷◌, ◌++◌, Option, none, some, Text, length, take, drop,
  take-append, drop-append,
}
use jd_relay.Common.Int.{pos, negsuc}
use jd_relay.Common.Dict.{Dict}
use jd_relay.Common.Json.{Value, str, int, strs, other, Document, object, Json}

write_text : Text → List ℕ → List ℕ
write_text t r = length t ∷ (t ++ r)

write_texts : List Text → List ℕ → List ℕ
write_texts [] r = r
write_texts (t ∷ ts) r = write_text t (write_texts ts r)

write_value : Value → List ℕ → List ℕ
write_value (str t) r = 0 ∷ write_text t r
write_value (int (pos n)) r = 1 ∷ n ∷ r
write_value (int (negsuc n)) r = 2 ∷ n ∷ r
write_value (strs ts) r = 3 ∷ length ts ∷ write_texts ts r
write_value other r = 4 ∷ r

write_entries : Dict Value → List ℕ → List ℕ
write_entries [] r = r
write_entries ((k, v) ∷ d) r = write_text k (write_value v (write_entries d r))

abbrev next {ℓ κ} : {A : Type ℓ} {B : Type κ} → Option A → (A → Option B) → Option B
next none f = none
next (some a) f = f a

read_text : List ℕ → Option (Text × List ℕ)
read_text [] = none
read_text (n ∷ r) = some (take n r, drop n r)

read_texts : ℕ → List ℕ → Option (List Text × List ℕ)
read_texts zero r = some ([], r)
read_texts (suc n) r = next (read_text r) λ p. next (read_texts n p.1) λ q. some (p.0 ∷ q.0, q.1)

read_tagged : ℕ → List ℕ → Option (Value × List ℕ)
read_tagged zero r = next (read_text r) λ p. some (str p.0, p.1)
read_tagged (suc zero) [] = none
read_tagged (suc zero) (n ∷ r) = some (int (pos n), r)
read_tagged (suc (suc zero)) [] = none
read_tagged (suc (suc zero)) (n ∷ r) = some (int (negsuc n), r)
read_tagged (suc (suc (suc zero))) [] = none
read_tagged (suc (suc (suc zero))) (n ∷ r) = next (read_texts n r) λ p. some (strs p.0, p.1)
read_tagged (suc (suc (suc (suc n)))) r = some (other, r)

read_value : List ℕ → Option (Value × List ℕ)
read_value [] = none
read_value (tag ∷ r) = read_tagged tag r

read_entries : ℕ → List ℕ → Option (Dict Value)
read_entries zero r = some []
read_entries (suc n) r =
    next (read_text r)
      λ p. next (read_value p.1) λ q. next (read_entries n q.1) λ d. some ((p.0, q.0) ∷ d)

read_text-write_text : (t : Text) (r : List ℕ) → read_text (write_text t r) ≡ some (t, r)
unfolding read_text write_text
read_text-write_text t r = rw (take-append t r) (rw (drop-append t r) refl)

read_texts-write_texts :
    (ts : List Text) (r : List ℕ) → read_texts (length ts) (write_texts ts r) ≡ some (ts, r)
unfolding read_texts write_texts
read_texts-write_texts [] r = refl
read_texts-write_texts (t ∷ ts) r =
    rw (read_text-write_text t (write_texts ts r), read_texts-write_texts ts r) refl

read_value-write_value : (v : Value) (r : List ℕ) → read_value (write_value v r) ≡ some (v, r)
unfolding read_value write_value read_tagged
read_value-write_value (str t) r = rw (read_text-write_text t r) refl
read_value-write_value (int (pos n)) r = refl
read_value-write_value (int (negsuc n)) r = refl
read_value-write_value (strs ts) r = rw (read_texts-write_texts ts r) refl
read_value-write_value other r = refl

read_entries-write_entries :
    (d : Dict Value) (r : List ℕ) → read_entries (length d) (write_entries d r) ≡ some d
unfolding read_entries write_entries
read_entries-write_entries [] r = refl
read_entries-write_entries ((k, v) ∷ d) r =
    rw
      (
        read_text-write_text k (write_value v (write_entries d r)),
        read_value-write_value v (write_entries d r),
        read_entries-write_entries d r,
      )
      refl

unfoldable pub dump : Dict Value → Text
unfolding write_text write_texts write_value write_entries
dump d = length d ∷ write_entries d []

unfoldable pub load : Text → Option Document
unfolding read_text read_texts read_tagged read_value read_entries
load [] = none
load (n ∷ r) = next (read_entries n r) λ d. some (object d)

pub load-dump : (d : Dict Value) → load (dump d) ≡ some (object d)
unfolding load dump
load-dump d = rw (read_entries-write_entries d []) refl

abbrev pub wire : Json
wire = record { dumps = dump; loads = load; loads-dumps = load-dump }
