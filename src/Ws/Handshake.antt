-- ===== src/Ws/Handshake.antt =====
-- The opening message of an agent, `_parse_handshake_init` of forwarder/app/ws/agent_handler.py. A
-- document that is no object is kept apart as `not_a_dict`, since what Python does with it depends on
-- what it is.
pub mod Answer
use jd_relay.Common.{
  ◌≡◌, refl, ◌↔◌, inl, inr, ap, List, [], ◌∷◌, Option, none, some, Text, codes, text_eq,
  text_eq_iff, is_some, if◌then◌else◌, arith, Bool-cases,
}
use jd_relay.Common.Dict.{Dict, lookup}
use jd_relay.Common.Json.{Value, str, int, strs, other, Document, object, not_object, Json}

pub record HandshakeInit : Type 0 where
  pub agent_id : Value
  pub projects : Value
  pub ecdh_pub_pem : Value
  pub ecdsa_pub_pem : Value
  pub signature_b64 : Value

pub data HandshakeError : Type 0 where
  invalid_json not_a_dict key_error : HandshakeError
  missing_field : Text → HandshakeError
  unexpected_type : Option Value → HandshakeError

pub data Parsed {ℓ} (A : Type ℓ) : Type ℓ where
  ok : A → Parsed A
  failure : HandshakeError → Parsed A

infixl 5 ◌>>=◌ ◌>>◌
abbrev ◌>>=◌ {ℓ κ} : {A : Type ℓ} {B : Type κ} → Parsed A → (A → Parsed B) → Parsed B
ok a >>= f = f a
failure e >>= f = failure e

abbrev ◌>>◌ {ℓ κ} : {A : Type ℓ} {B : Type κ} → Parsed A → Parsed B → Parsed B
m >> k = m >>= λ _. k

abbrev required : List Text
required =
    codes "agent_id"
    ∷ codes "projects"
    ∷ codes "ecdh_pub_pem"
    ∷ codes "ecdsa_pub_pem"
    ∷ codes "signature"
    ∷ []

-- The loop over the required fields.
unfoldable pub check_fields : List Text → Dict Value → Parsed (Unit {0})
check_fields [] j = ok tt
check_fields (field ∷ fields) j =
    let rest = check_fields fields j in
    if is_some (lookup field j) then rest else failure (missing_field field)

-- `j.get("type") != "HANDSHAKE_INIT"`
unfoldable pub check_type : Option Value → Parsed (Unit {0})
check_type (some (str t)) =
    if text_eq t (codes "HANDSHAKE_INIT") then ok tt else failure (unexpected_type (some (str t)))
check_type t = failure (unexpected_type t)

-- j[key]
abbrev at_key : Option Value → Parsed Value
at_key none = failure key_error
at_key (some v) = ok v

unfoldable pub init_of : Dict Value → Parsed HandshakeInit
init_of j = do
  check_fields required j
  check_type (lookup (codes "type") j)
  agent_id ← at_key (lookup (codes "agent_id") j)
  projects ← at_key (lookup (codes "projects") j)
  ecdh_pub_pem ← at_key (lookup (codes "ecdh_pub_pem") j)
  ecdsa_pub_pem ← at_key (lookup (codes "ecdsa_pub_pem") j)
  signature ← at_key (lookup (codes "signature") j)
  ok (record {
    agent_id = agent_id;
    projects = projects;
    ecdh_pub_pem = ecdh_pub_pem;
    ecdsa_pub_pem = ecdsa_pub_pem;
    signature_b64 = signature;
  })

abbrev document_init : Option Document → Parsed HandshakeInit
document_init none = failure invalid_json
document_init (some not_object) = failure not_a_dict
document_init (some (object j)) = init_of j

unfoldable pub parse_handshake_init : Json → Text → Parsed HandshakeInit
parse_handshake_init J raw = document_init (J.loads raw)

-- The message is an object that holds the fields of the opening, and says that it is one.
pub record IsInit (J : Json) (raw : Text) (init : HandshakeInit) : Type 0 where
  pub fields : Dict Value
  pub loaded : J.loads raw ≡ some (object fields)
  pub type_field : lookup (codes "type") fields ≡ some (str (codes "HANDSHAKE_INIT"))
  pub agent_id_field : lookup (codes "agent_id") fields ≡ some (init.agent_id)
  pub projects_field : lookup (codes "projects") fields ≡ some (init.projects)
  pub ecdh_field : lookup (codes "ecdh_pub_pem") fields ≡ some (init.ecdh_pub_pem)
  pub ecdsa_field : lookup (codes "ecdsa_pub_pem") fields ≡ some (init.ecdsa_pub_pem)
  pub signature_field : lookup (codes "signature") fields ≡ some (init.signature_b64)

init-accepts :
    (J : Json) (raw : Text) (init : HandshakeInit)
    → IsInit J raw init
    → parse_handshake_init J raw ≡ ok init
unfolding parse_handshake_init init_of check_fields check_type text_eq
init-accepts J raw init h = rw (h.loaded) (
    rw
      (
        h.type_field, h.agent_id_field, h.projects_field, h.ecdh_field, h.ecdsa_field,
        h.signature_field,
      )
      refl)

check_type-ok : (t : Option Value) → check_type t ≡ ok tt → t ≡ some (str (codes "HANDSHAKE_INIT"))
unfolding check_type
check_type-ok none h = cc
check_type-ok (some (str t)) h = elim (Bool-cases (text_eq t (codes "HANDSHAKE_INIT"))) [
  | inl e ↦ ap (λ x. some (str x)) ((text_eq_iff t (codes "HANDSHAKE_INIT")).0 e)
  | inr n ↦ absurd (ground arith)
]
check_type-ok (some (int n)) h = cc
check_type-ok (some (strs ts)) h = cc
check_type-ok (some other) h = cc

bind-ok {ℓ κ} :
    {A : Type ℓ} {B : Type κ} (m : Parsed A) (f : A → Parsed B) {b : B}
    → (m >>= f) ≡ ok b
    → (a : A) × (m ≡ ok a) × (f a ≡ ok b)
bind-ok (ok a) f h = (a, refl, h)
bind-ok (failure e) f h = cc

at_key-ok : (o : Option Value) {v : Value} → at_key o ≡ ok v → o ≡ some v
at_key-ok none h = cc
at_key-ok (some v) h = cc

accepted-IsInit :
    (J : Json) (raw : Text) (j : Dict Value) (init : HandshakeInit)
    → J.loads raw ≡ some (object j)
    → init_of j ≡ ok init
    → IsInit J raw init
unfolding init_of
accepted-IsInit J raw j init l h =
    let (u, e, h1) = bind-ok (check_fields required j) _ h in
    let (v, t, h2) = bind-ok (check_type (lookup (codes "type") j)) _ h1 in
    let (a, f1, h3) = bind-ok (at_key (lookup (codes "agent_id") j)) _ h2 in
    let (b, f2, h4) = bind-ok (at_key (lookup (codes "projects") j)) _ h3 in
    let (c, f3, h5) = bind-ok (at_key (lookup (codes "ecdh_pub_pem") j)) _ h4 in
    let (d, f4, h6) = bind-ok (at_key (lookup (codes "ecdsa_pub_pem") j)) _ h5 in
    let (s, f5, h7) = bind-ok (at_key (lookup (codes "signature") j)) _ h6 in
    record {
      fields = j;
      loaded = l;
      type_field = check_type-ok _ t;
      agent_id_field = rw (at_key-ok _ f1) (cc h7);
      projects_field = rw (at_key-ok _ f2) (cc h7);
      ecdh_field = rw (at_key-ok _ f3) (cc h7);
      ecdsa_field = rw (at_key-ok _ f4) (cc h7);
      signature_field = rw (at_key-ok _ f5) (cc h7);
    }

document-IsInit :
    (J : Json) (raw : Text) (d : Option Document) (init : HandshakeInit)
    → J.loads raw ≡ d
    → document_init d ≡ ok init
    → IsInit J raw init
document-IsInit J raw none init l h = cc
document-IsInit J raw (some not_object) init l h = cc
document-IsInit J raw (some (object j)) init l h = accepted-IsInit J raw j init l h

-- A message is read as an opening exactly if it is a JSON object whose type is HANDSHAKE_INIT and that
-- has the five required fields, and then those are what is read.
pub parse_handshake_init-iff-IsInit :
    (J : Json) (raw : Text) (init : HandshakeInit)
    → (parse_handshake_init J raw ≡ ok init) ↔ IsInit J raw init
unfolding parse_handshake_init
parse_handshake_init-iff-IsInit J raw init =
    (document-IsInit J raw (J.loads raw) init refl, init-accepts J raw init)
