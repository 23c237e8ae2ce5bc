-- ===== src/Contact/Accepted.antt =====
-- Whose consent a contact of ntied/src/contact/handle.rs has, over any run of its task.
use ntied.Common.{◌≡◌, refl, sym, ap, ◌∙◌, Bool, true, false, List, [], ◌∷◌, ◌⊎◌, inl, inr, arith}
use ntied.Address.Text.{Base64}
use ntied.Contact.{
  ContactStatus, pending_incoming, pending_outgoing, rejected_incoming, rejected_outgoing, accepted,
  ContactHandle,
}
use ntied.Contact.Handshake.{Event}
use ntied.Contact.Task.{step, run}
use ntied.Contact.Consent.{is_rejected, consents, has_consent, Moves, step-Moves}

consents-rejected : (s : ContactStatus) (e : Event) → is_rejected s ≡ true → consents s e ≡ false
unfolding is_rejected consents
consents-rejected rejected_incoming e r = refl
consents-rejected rejected_outgoing e r = refl
consents-rejected pending_incoming e r = absurd (ground arith)
consents-rejected pending_outgoing e r = absurd (ground arith)
consents-rejected accepted e r = absurd (ground arith)

Moves-rejected :
    (s : ContactStatus) (e : Event) (s' : ContactStatus)
    → is_rejected s ≡ true
    → Moves s e s'
    → is_rejected s' ≡ true
Moves-rejected s e s' r (inl same) = ap is_rejected same ∙ r
Moves-rejected s e s' r (inr (inl gone)) = gone
Moves-rejected s e s' r (inr (inr (_, c))) =
    let no = consents-rejected s e r in absurd (ground arith)

module _ (engine : Base64) where
  pub run-rejected :
      (es : List (Bool × Event)) (h : ContactHandle)
      → is_rejected h.status ≡ true
      → is_rejected (run engine h es).status ≡ true
  unfolding run
  run-rejected [] h r = r
  run-rejected ((sends, e) ∷ es) h r =
      run-rejected es (step engine h (sends, e))
        (Moves-rejected h.status e _ r (step-Moves engine sends e h))

  -- After any run, a contact is accepted only if it was accepted at the start, or the run has the
  -- consent that its first status asks for: the user's own acceptance for a contact that asked, and
  -- the acceptance of the peer for one that the user asked.
  pub run-has_consent :
      (es : List (Bool × Event)) (h : ContactHandle)
      → (run engine h es).status ≡ accepted
      → (h.status ≡ accepted) ⊎ (has_consent h.status es ≡ true)
  unfolding run has_consent is_rejected
  run-has_consent [] h a = inl a
  run-has_consent ((sends, e) ∷ es) h a = elim (step-Moves engine sends e h) [
    | inl same ↦
        let later = run-has_consent es (step engine h (sends, e)) a in
        elim later [
          | inl was ↦ inl (sym same ∙ was)
          | inr has ↦ inr (let has' = sym (ap (λ s. has_consent s es) same) ∙ has in ground arith)
        ]
    | inr (inl gone) ↦
        let still = sym (ap is_rejected a) ∙ run-rejected es (step engine h (sends, e)) gone in
        absurd (ground arith)
    | inr (inr (_, c)) ↦ inr (ground arith)
  ]
