-- ===== src/Ws/AgentManager/Routes.antt =====
-- The loops over the route table of forwarder/app/ws/agent_manager.py.
use jd_relay.Common.{
  ◌≡◌, refl, Bool, true, false, List, [], ◌∷◌, none, some, Text, text_eq, text_eq_iff,
  text_eq-cases, Bool-cases, inl, inr, ◌∙◌, if◌then◌else◌, ◌||◌, arith,
}
use jd_relay.Common.Dict.{Dict, lookup, insert, remove, lookup-insert, lookup-remove}
use jd_relay.Ws.AgentManager.{route_all, routes_to, remove_all}

-- `p in ps`
abbrev pub contains : Text → List Text → Bool
contains p [] = false
contains p (q ∷ ps) = text_eq q p || contains p ps

pub lookup-route_all :
    (agent_id : Text) (ps : List Text) (d : Dict Text) (p : Text)
    → lookup p (route_all agent_id ps d) ≡ (if contains p ps then some agent_id else lookup p d)
unfolding route_all
lookup-route_all agent_id [] d p = refl
lookup-route_all agent_id (q ∷ ps) d p =
    ground
      (arith, lookup-route_all agent_id ps (insert q agent_id d) p, lookup-insert q p agent_id d)

pub lookup-remove_all :
    (ps : List Text) (d : Dict Text) (p : Text)
    → lookup p (remove_all ps d) ≡ (if contains p ps then none else lookup p d)
unfolding remove_all
lookup-remove_all [] d p = refl
lookup-remove_all (q ∷ ps) d p =
    ground (arith, lookup-remove_all ps (remove q d) p, lookup-remove q p d)

text_eq_sym : (a b : Text) → text_eq b a ≡ false → text_eq a b ≡ false
text_eq_sym a b h = ground (arith, text_eq_iff a b, text_eq_iff b a)

pub contains-routes_to :
    (agent_id : Text) (d : Dict Text) (p : Text)
    → lookup p d ≡ some agent_id
    → contains p (routes_to agent_id d) ≡ true
unfolding lookup routes_to
contains-routes_to agent_id [] p h = cc
contains-routes_to agent_id ((q, a) ∷ d) p h =
    ground (arith, contains-routes_to agent_id d p, text_eq_iff a agent_id)

-- A key of the dictionary stands in it once.
abbrev pub HasUniqueKeys : Dict Text → Type 0
HasUniqueKeys [] = Unit
HasUniqueKeys ((k, v) ∷ d) = (lookup k d ≡ none) × HasUniqueKeys d

not-contains-routes_to :
    (agent_id : Text) (d : Dict Text) (p : Text)
    → lookup p d ≡ none
    → contains p (routes_to agent_id d) ≡ false
unfolding lookup routes_to
not-contains-routes_to agent_id [] p h = refl
not-contains-routes_to agent_id ((q, a) ∷ d) p h =
    ground (arith, not-contains-routes_to agent_id d p)

pub other-routes_to :
    (agent_id b : Text) (d : Dict Text) (p : Text)
    → HasUniqueKeys d
    → lookup p d ≡ some b
    → text_eq b agent_id ≡ false
    → contains p (routes_to agent_id d) ≡ false
unfolding lookup routes_to
other-routes_to agent_id b [] p u h n = cc
other-routes_to agent_id b ((q, a) ∷ d) p u h n = elim (text_eq-cases q p) [
  | inl same ↦
      let alone : contains p (routes_to agent_id d) ≡ false =
        not-contains-routes_to agent_id d p (rw same at (u.0)) in
      ground (arith, text_eq_iff q p)
  | inr ne ↦
      let rest : contains p (routes_to agent_id d) ≡ false =
        other-routes_to agent_id b d p u.1 (rw ne at h) n in
      ground arith
]

pub HasUniqueKeys-insert :
    (k v : Text) (d : Dict Text) → HasUniqueKeys d → HasUniqueKeys (insert k v d)
unfolding insert lookup
HasUniqueKeys-insert k v [] u = (refl, tt)
HasUniqueKeys-insert k v ((j, w) ∷ d) u = elim (Bool-cases (text_eq j k)) [
  | inl e ↦ rw e u
  | inr n ↦
      rw n (lookup-insert k j v d ∙ rw (text_eq_sym k j n) (u.0), HasUniqueKeys-insert k v d (u.1))
]

pub HasUniqueKeys-route_all :
    (agent_id : Text) (ps : List Text) (d : Dict Text)
    → HasUniqueKeys d
    → HasUniqueKeys (route_all agent_id ps d)
unfolding route_all
HasUniqueKeys-route_all agent_id [] d u = u
HasUniqueKeys-route_all agent_id (p ∷ ps) d u =
    HasUniqueKeys-route_all agent_id ps (insert p agent_id d) (HasUniqueKeys-insert p agent_id d u)

HasUniqueKeys-remove : (k : Text) (d : Dict Text) → HasUniqueKeys d → HasUniqueKeys (remove k d)
unfolding remove
HasUniqueKeys-remove k [] u = tt
HasUniqueKeys-remove k ((j, w) ∷ d) u = elim (Bool-cases (text_eq j k)) [
  | inl e ↦ rw e (HasUniqueKeys-remove k d u.1)
  | inr n ↦ rw n (lookup-remove k j d ∙ rw (text_eq_sym k j n) (u.0), HasUniqueKeys-remove k d u.1)
]

pub HasUniqueKeys-remove_all :
    (ps : List Text) (d : Dict Text) → HasUniqueKeys d → HasUniqueKeys (remove_all ps d)
unfolding remove_all
HasUniqueKeys-remove_all [] d u = u
HasUniqueKeys-remove_all (p ∷ ps) d u =
    HasUniqueKeys-remove_all ps (remove p d) (HasUniqueKeys-remove p d u)
