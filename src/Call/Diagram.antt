-- ===== src/Call/Diagram.antt =====
-- A call that starts or comes in follows an edge of the diagram.
use ntied.Common.{
  ℕ, ◌≡◌, ◌≢◌, refl, Bool, true, false, Option, none, some, Option-cases, Bool-cases, inl, inr,
  arith, subst, sym, ap, ◌∙◌,
}
use ntied.Address.{Address}
use ntied.Codec.{adpcm}
use ntied.Call.{
  CallState, idle, calling, ringing, connected, ended, CallState-discrete, CallHandle, Cell,
  CallManager, CallPacket, Notice, outgoing_call, incoming_call, start_packet, reject_packet, World,
  Outcome, notify, send, set_active, set_cell, new_handle, get_state, set_state,
}
use ntied.Call.Handlers.{
  start_audio_for_call, store_call, announce_call, start_call, ring, is_in_call, is_live, is_state,
  offer_of, reject_incoming_call, handle_incoming_call,
}
use ntied.Call.Life.{
  Phase, no_call, call, phase_of, phase, ◌⟶◌, stays, fails_to_start, calls, rings, rings_instead,
}
use ntied.Call.Invariant.{Inv, IsCurrent, get_state-set_state}
use ntied.Call.Entry.{start_audio_current, create_audio_state_only}
use mathlib.Core.Logic.{if_pos}
use native.Mathlib.Decide.{ℕ_discrete}

pub phase-some :
    (h : CallHandle) (m : CallManager) → m.current_call ≡ some h → phase m ≡ phase_of m h
unfolding phase
phase-some h m e =
    ap
      (λ (c : Option CallHandle). elim c as (λ x. Phase) [ none ↦ no_call | some g ↦ phase_of m g ])
      e

pub phase-none : (m : CallManager) → m.current_call ≡ none → phase m ≡ no_call
unfolding phase
phase-none m e =
    ap
      (λ (c : Option CallHandle). elim c as (λ x. Phase) [ none ↦ no_call | some g ↦ phase_of m g ])
      e

pub phase-send :
    (address : Address) (packet : CallPacket) (m : CallManager)
    → phase (send address packet m) ≡ phase m
unfolding phase send get_state
phase-send address packet m = refl

pub phase-notify : (n : Notice) (m : CallManager) → phase (notify n m) ≡ phase m
unfolding phase notify get_state
phase-notify n m = refl

-- The phase of a current call whose state is known.
pub phase_is :
    (h : CallHandle) (i : Bool) (s : CallState) (m : CallManager)
    → m.current_call ≡ some h
    → h.is_incoming ≡ i
    → get_state m h ≡ s
    → phase m ≡ call h.call_id h.peer_address i s
phase_is h i s m e way same =
    phase-some h m e
    ∙ ap (λ x. call h.call_id h.peer_address x (get_state m h)) way
    ∙ ap (λ x. call h.call_id h.peer_address i x) same

pub phase-set_state :
    (h : CallHandle) (i : Bool) (s : CallState) (m : CallManager)
    → m.current_call ≡ some h
    → h.is_incoming ≡ i
    → phase (set_state h s m) ≡ call h.call_id h.peer_address i s
unfolding set_state set_cell notify
phase-set_state h i s m e way = phase_is h i s (set_state h s m) e way (get_state-set_state h s m)

-- A step from the phase that the manager was in.
pub kept : (p : Phase) (m : CallManager) → phase m ≡ p → p ⟶ phase m
kept p m was = subst (λ x. x ⟶ phase m) was stays

pub from : (p q r : Phase) (m : CallManager) → phase m ≡ p → phase m ≡ q → q ⟶ r → p ⟶ r
from p q r m was is move = subst (λ x. x ⟶ r) (sym is ∙ was) move

pub to : (p q : Phase) (m : CallManager) → phase m ≡ q → p ⟶ q → p ⟶ phase m
to p q m is move = subst (λ x. p ⟶ x) (sym is) move

stored_idle :
    (call_id : ℕ) (address : Address) (is_incoming : Bool) (m : CallManager)
    → let (m', h) = store_call call_id address is_incoming m in
      (m'.current_call ≡ some h)
      × (get_state m' h ≡ idle)
      × (h.is_incoming ≡ is_incoming)
      × (h.call_id ≡ call_id)
      × (h.peer_address ≡ address)
unfolding store_call new_handle set_active set_cell get_state
stored_idle call_id address is_incoming m = (
  refl,
  ap (λ (c : Cell). c.state) (if_pos (ℕ_discrete m.next_ref m.next_ref) refl _ _),
  refl,
  refl,
  refl,
)

announce_call-⟶ :
    (w : World) (h : CallHandle) (m : CallManager)
    → h.is_incoming ≡ false
    → m.current_call ≡ some h
    → get_state m h ≡ idle
    → no_call ⟶ phase (announce_call w h m).0
unfolding announce_call send get_state
announce_call-⟶ w h m way e at =
    let start = start_packet h.call_id in
    let offer = offer_of h.call_id m in
    let failed = subst (λ q. no_call ⟶ q) (sym (phase_is h false idle m e way at)) fails_to_start in
    elim (Bool-cases (w.delivers h.peer_address start)) [
      | inr f ↦ rw (f, announce_call) failed
      | inl f ↦ elim (Bool-cases (w.delivers h.peer_address offer)) [
        | inr g ↦ rw (f, announce_call, g, phase-send h.peer_address start m) failed
        | inl g ↦
            rw (f, announce_call, g, phase-notify (outgoing_call h.peer_address) _)
              (subst (λ q. no_call ⟶ q)
                (sym (
                  phase-set_state h false calling
                    (send h.peer_address offer (send h.peer_address start m)) e way))
                calls)
      ]
    ]

pub start_call-⟶ :
    (w : World) (call_id : ℕ) (address : Address) (m : CallManager) (p : Phase)
    → phase m ≡ p
    → p ⟶ phase (start_call w call_id address m).0
unfolding start_call
start_call-⟶ w call_id address m p was = elim (Option-cases m.current_call) [
  | inr (h, e) ↦ rw (e, start_call) (kept p m was)
  | inl e ↦
      let (m', h) = store_call call_id address false m in
      let (current, at, way, id, peer) = stored_idle call_id address false m in
      let done = announce_call-⟶ w h m' way current at in
      elim (Bool-cases (w.is_connected address)) [
        | inr f ↦ rw (e, start_call, f) (kept p m was)
        | inl f ↦ rw (e, start_call, f) (from p no_call _ m was (phase-none m e) done)
      ]
]

is_in_call_current :
    (g : CallHandle) (m : CallManager)
    → m.current_call ≡ some g
    → is_in_call m ≡ is_live (get_state m g)
unfolding is_in_call
is_in_call_current g m e =
    ap
      (λ (c : Option CallHandle). elim c as (λ x. Bool) [
        | none ↦ false
        | some h ↦ is_live (get_state m h)
      ])
      e

is_live-false : (s : CallState) → is_live s ≡ false → s ≢ ended → s ≡ idle
unfolding is_live is_state CallState-discrete
is_live-false idle h other = refl
is_live-false calling h other = absurd (ground (arith, h))
is_live-false ringing h other = absurd (ground (arith, h))
is_live-false connected h other = absurd (ground (arith, h))
is_live-false ended h other = absurd (other refl)

ringing_after :
    (call_id : ℕ) (address : Address) (m : CallManager) (p : Phase)
    → phase m ≡ p
    → Inv m
    → is_in_call m ≡ false
    → p ⟶ call call_id address true ringing
ringing_after call_id address m p was (keyed, now) quiet = elim (Option-cases m.current_call) [
  | inl e ↦ from p no_call _ m was (phase-none m e) rings
  | inr (g, e) ↦
      let (active, live, owns, silent) = subst (IsCurrent m) e now in
      let same = is_live-false (get_state m g) (sym (is_in_call_current g m e) ∙ quiet) live in
      from p _ _ m was (phase_is g g.is_incoming idle m e refl same) rings_instead
]

-- A call that rings takes the place of no call, or of an idle one.
ring-⟶ :
    (w : World) (call_id : ℕ) (address : Address) (m : CallManager) (p : Phase)
    → phase m ≡ p
    → Inv m
    → is_in_call m ≡ false
    → p ⟶ phase (ring w address call_id m).0
unfolding ring store_call new_handle
ring-⟶ w call_id address m p was v quiet =
    let (m', h) = store_call call_id address true m in
    let (current, at, way, id, peer) = stored_idle call_id address true m in
    elim (Bool-cases (w.is_connected address)) [
      | inr f ↦ rw (f, ring) (kept p m was)
      | inl f ↦
          rw (f, ring)
            (to p (call call_id address true ringing) _
              (phase-notify (incoming_call address) (set_state h ringing m')
                ∙ phase-set_state h true ringing m' current way)
              (ringing_after call_id address m p was v quiet))
    ]

pub handle_incoming_call-⟶ :
    (w : World) (address : Address) (call_id : ℕ) (m : CallManager) (p : Phase)
    → phase m ≡ p
    → Inv m
    → p ⟶ phase (handle_incoming_call w address call_id m).0
unfolding handle_incoming_call reject_incoming_call
handle_incoming_call-⟶ w address call_id m p was v =
    let reject = reject_packet call_id in
    elim (Bool-cases (is_in_call m)) [
      | inr f ↦ rw (f, handle_incoming_call) (ring-⟶ w call_id address m p was v f)
      | inl f ↦ elim (Bool-cases (w.delivers address reject)) [
        | inr g ↦ rw (f, handle_incoming_call, g) (kept p m was)
        | inl g ↦
            rw (f, handle_incoming_call, g)
              (kept p (send address reject m) (phase-send address reject m ∙ was))
      ]
    ]

-- Starting the audio keeps the call.
pub start_audio-current :
    (w : World) (h : CallHandle) (m : CallManager)
    → m.current_call ≡ some h
    → ((start_audio_for_call w m).0.current_call ≡ some h)
      × (get_state (start_audio_for_call w m).0 h ≡ get_state m h)
unfolding get_state
start_audio-current w h m e =
    let only =
      ap (λ (r : Outcome Unit). r.0) (start_audio_current w h m e)
      ∙ create_audio_state_only w h adpcm none none m in
    (
      ap (λ (x : CallManager). x.current_call) only ∙ e,
      ap (λ (x : CallManager). (x.cells h.ref).state) only,
    )
