-- ===== src/Relay/Effects.antt =====
-- When the service of forwarder/app/services/relay.py calls DingTalk or an agent.
use jd_relay.Common.{
  ◌⊎◌, inl, inr, Bool-cases, ◌≡◌, refl, Bool, true, false, some, List, [], ◌∷◌, Text, codes,
  if◌then◌else◌,
}
use jd_relay.Common.Dict.{lookup}
use jd_relay.Common.Json.{Json, str}
use jd_relay.Crypto.Envelope.{MessageType, build_trigger}
use jd_relay.WorkOrder.{
  WorkOrderState, pending_approval, building, pending_second_review, can_transition, transition,
}
use jd_relay.Relay.{
  bad_transition, no_agent, pure, throw, ok, failure, WorkOrderDict, RelayService, get_or, require,
  current_state, move, submit_for_approval, on_sensitive_change_detected, send_to_project,
  trigger_build,
}

either : {b : Bool} {A : Type 0} → (b ≡ true) ⊎ (b ≡ false) → (b ≡ false → A) → (b ≡ true) ⊎ A
either (inl h) f = inl h
either (inr h) f = inr (f h)

module _ {W : Type 0} where
  -- For a work order in a known state, a submission, a second review and a build trigger each are a
  -- step that the state machine allows, or they raise StateError and leave the world alone: neither
  -- DingTalk nor an agent is called.
  pub no_effect_off_lifecycle :
      (J : Json) (service : RelayService W) (wo : WorkOrderDict) (user process : Text)
      (files approvers : List Text) (s : WorkOrderState) (w : W)
      → current_state wo w ≡ (ok s, w)
      → ((can_transition s pending_approval ≡ true)
          ⊎ (submit_for_approval service wo user process approvers w
              ≡ (failure (bad_transition s pending_approval), w)))
        × ((can_transition s pending_second_review ≡ true)
            ⊎ (on_sensitive_change_detected service wo files approvers w
                ≡ (failure (bad_transition s pending_second_review), w)))
        × ((can_transition s building ≡ true)
            ⊎ (trigger_build J service wo w ≡ (failure (bad_transition s building), w)))
  unfolding submit_for_approval on_sensitive_change_detected trigger_build move transition
  no_effect_off_lifecycle J service wo user process files approvers s w e = rw e (
    either (Bool-cases (can_transition s pending_approval)) (λ h. rw h refl),
    either (Bool-cases (can_transition s pending_second_review)) (λ h. rw h refl),
    either (Bool-cases (can_transition s building)) (λ h. rw h refl),
  )

  sent_or_failed :
      (sent : Bool × W) (project : Text)
      → (if sent.0 then pure true else throw (no_agent project)) sent.1
        ≡ ((if sent.0 then ok true else failure (no_agent project)), sent.1)
  sent_or_failed (true, w) project = refl
  sent_or_failed (false, w) project = refl

  -- A build trigger for a complete work order that may be built sends one BUILD_TRIGGER to the agent
  -- of the project, with the five fields of the order, and returns True if that send succeeded, or
  -- else raises the error that names the project.
  pub trigger_build_sends :
      (J : Json) (service : RelayService W) (wo : WorkOrderDict)
      (call : Text → MessageType → Text → W → Bool × W) (s : WorkOrderState)
      (order_no issue branch : Text) (w : W)
      → service.forwarder ≡ some call
      → current_state wo w ≡ (ok s, w)
      → can_transition s building ≡ true
      → lookup (codes "order_no") wo ≡ some order_no
      → lookup (codes "issue") wo ≡ some issue
      → lookup (codes "branch") wo ≡ some branch
      → let project = get_or (codes "project") wo [] in
        let payload = J.dumps (
          (codes "work_order_id", str order_no)
          ∷ (codes "issue", str issue)
          ∷ (codes "project", str project)
          ∷ (codes "branch", str branch)
          ∷ (codes "build_cmd", str (get_or (codes "build_cmd") wo []))
          ∷ []) in
        let sent = call project build_trigger payload w in
        trigger_build J service wo w
        ≡ ((if sent.0 then ok true else failure (no_agent project)), sent.1)
  unfolding trigger_build move transition require send_to_project
  trigger_build_sends J service wo call s order_no issue branch w f e h o i b =
      simp (e, h, o, i, b, f)
        (sent_or_failed (call _ build_trigger _ w) (get_or (codes "project") wo []))
