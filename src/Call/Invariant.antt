-- ===== src/Call/Invariant.antt =====
-- What the manager keeps of its calls, and the steps that keep it.
use ntied.Common.{
  ℕ, ◌≡◌, ◌≢◌, refl, Bool, true, false, Option, none, some, Option-cases, Bool-cases, inl, inr,
  arith, subst, sym, ap, ◌∙◌,
}
use ntied.Address.{Address, Address-discrete}
use ntied.Codec.{CodecType}
use ntied.Call.{
  CallState, connected, ended, CallHandle, Cell, AudioState, CallManager, World, notify, set_active,
  set_cell, new_handle, get_state, set_state,
}
use ntied.Call.Handlers.{
  create_audio_state, store_call, cleanup_call, is_address, start_audio_for_call,
}
use mathlib.Core.Logic.{if_pos, if_neg}
use native.Mathlib.Decide.{ℕ_discrete}

-- An active call is stored under its peer's address.
abbrev pub AreKeyed : CallManager → Type 0
AreKeyed m =
    (address : Address) (h : CallHandle)
    → m.active_calls address ≡ some h
    → h.peer_address ≡ address

-- The audio, if there is any, is that of the call.
abbrev pub OwnsAudio : CallManager → CallHandle → Type 0
OwnsAudio m h =
    (audio : AudioState)
    → m.audio_state ≡ some audio
    → (audio.call_id ≡ h.call_id) × (audio.ref ≡ h.ref)

-- A current call is active and not ended, and there is audio only once it is connected; without a
-- current call there is none.
abbrev pub IsCurrent : CallManager → Option CallHandle → Type 0
IsCurrent m none = m.audio_state ≡ none
IsCurrent m (some h) =
    (m.active_calls h.peer_address ≡ some h)
    × (get_state m h ≢ ended)
    × OwnsAudio m h
    × (get_state m h ≢ connected → m.audio_state ≡ none)

abbrev pub Inv : CallManager → Type 0
Inv m = AreKeyed m × IsCurrent m m.current_call

pub set_active_at :
    (address : Address) (c : Option CallHandle) (m : CallManager)
    → (set_active address c m).active_calls address ≡ c
unfolding set_active
set_active_at address c m = if_pos (Address-discrete address address) refl _ _

pub set_active_other :
    (address a : Address) (c : Option CallHandle) (m : CallManager)
    → address ≢ a
    → (set_active address c m).active_calls a ≡ m.active_calls a
unfolding set_active
set_active_other address a c m other = if_neg (Address-discrete address a) other _ _

pub get_state-set_state :
    (h : CallHandle) (s : CallState) (m : CallManager) → get_state (set_state h s m) h ≡ s
unfolding get_state set_state set_cell notify
get_state-set_state h s m = ap (λ (c : Cell). c.state) (if_pos (ℕ_discrete h.ref h.ref) refl _ _)

set_active-some-AreKeyed :
    (address : Address) (h : CallHandle) (m : CallManager)
    → h.peer_address ≡ address
    → AreKeyed m
    → AreKeyed (set_active address (some h) m)
set_active-some-AreKeyed address h m same keyed a g e = elim (Address-discrete address a) [
  | yes p ↦
      let at =
        subst (λ x. (set_active address (some h) m).active_calls x ≡ some h) p
          (set_active_at address (some h) m) in
      ap (λ (c : Option CallHandle). elim c [ none ↦ address | some x ↦ x.peer_address ])
        (sym e ∙ at)
      ∙ same
      ∙ p
  | no p ↦ keyed a g (sym (set_active_other address a (some h) m p) ∙ e)
]

set_active-none-AreKeyed :
    (address : Address) (m : CallManager) → AreKeyed m → AreKeyed (set_active address none m)
set_active-none-AreKeyed address m keyed a g e = elim (Address-discrete address a) [
  | yes p ↦
      let at =
        subst (λ x. (set_active address none m).active_calls x ≡ none) p
          (set_active_at address none m) in
      absurd (ground (arith, sym e ∙ at))
  | no p ↦ keyed a g (sym (set_active_other address a none m p) ∙ e)
]

-- A call that was just stored, in any state but the last.
pub store_call-Inv :
    (call_id : ℕ) (address : Address) (is_incoming : Bool) (m : CallManager)
    → AreKeyed m
    → m.audio_state ≡ none
    → Inv (store_call call_id address is_incoming m).0
unfolding store_call new_handle set_active set_cell get_state
store_call-Inv call_id address is_incoming m keyed silent =
    let (m', h) = new_handle call_id address is_incoming m in
    (
      set_active-some-AreKeyed address h m refl keyed,
      (
        set_active_at address (some h) m,
        subst (λ (c : Cell). c.state ≢ ended)
            (sym (if_pos (ℕ_discrete m.next_ref m.next_ref) refl _ _)) (λ e. cc),
        λ audio e. absurd (ground (arith, sym silent ∙ e)),
        λ other. silent,
      ),
    )

-- A new state of the current call.
pub set_state-Inv :
    (h : CallHandle) (s : CallState) (m : CallManager)
    → m.current_call ≡ some h
    → s ≢ ended
    → (s ≢ connected → m.audio_state ≡ none)
    → AreKeyed m
    → m.active_calls h.peer_address ≡ some h
    → OwnsAudio m h
    → Inv (set_state h s m)
unfolding set_state set_cell notify
set_state-Inv h s m e live silent keyed active owns = (
  keyed,
  subst (IsCurrent (set_state h s m)) (sym e) (
    active,
    subst (λ x. x ≢ ended) (sym (get_state-set_state h s m)) live,
    owns,
    subst (λ x. x ≢ connected → m.audio_state ≡ none) (sym (get_state-set_state h s m)) silent,
  ),
)

-- Audio for the current call.
pub create_audio_state-OwnsAudio :
    (w : World) (h : CallHandle) (codec : CodecType) (input output : Option ℕ) (m : CallManager)
    → OwnsAudio m h
    → OwnsAudio (create_audio_state w h codec input output m).0 h
unfolding create_audio_state
create_audio_state-OwnsAudio w h codec input output m owns =
    elim (Bool-cases (w.opens input output)) [
      | inl e ↦ rw (e, create_audio_state) (λ audio found. ground (arith, found))
      | inr e ↦ rw (e, create_audio_state) owns
    ]

pub is_address_yes : (a b : Address) → is_address a b ≡ true → a ≡ b
unfolding is_address
is_address_yes a b h = elim (Address-discrete a b) [
  | yes same ↦ same
  | no other ↦ absurd (ground (arith, sym (if_neg (Address-discrete a b) other true false) ∙ h))
]

pub is_address_no : (a b : Address) → is_address a b ≡ false → b ≢ a
unfolding is_address
is_address_no a b h same =
    absurd (ground (arith, sym (if_pos (Address-discrete a b) (sym same) true false) ∙ h))

pub cleanup_call-Inv : (address : Address) (m : CallManager) → Inv m → Inv (cleanup_call address m)
unfolding cleanup_call set_active set_state set_cell notify get_state
cleanup_call-Inv address m (keyed, now) = elim (Option-cases m.current_call) [
  | inl e ↦
      rw (e, cleanup_call)
        (
          set_active-none-AreKeyed address m keyed,
          subst (IsCurrent (set_active address none m)) (sym e) (subst (IsCurrent m) e now),
        )
  | inr (h, e) ↦ elim (Bool-cases (is_address h.peer_address address)) [
    | inl same ↦ rw (e, cleanup_call, same) (set_active-none-AreKeyed address m keyed, refl)
    | inr other ↦
        let (active, live, owns, silent) = subst (IsCurrent m) e now in
        rw (e, cleanup_call, other)
          (
            set_active-none-AreKeyed address m keyed,
            subst (IsCurrent (set_active address none m)) (sym e) (
              set_active_other address h.peer_address none m
                    (is_address_no h.peer_address address other)
                  ∙ active,
              live,
              owns,
              silent,
            ),
          )
  ]
]

-- Audio that starts, or starts anew, for the current call.
pub start_audio_for_call-OwnsAudio :
    (w : World) (h : CallHandle) (m : CallManager)
    → m.current_call ≡ some h
    → OwnsAudio m h
    → OwnsAudio (start_audio_for_call w m).0 h
unfolding start_audio_for_call
start_audio_for_call-OwnsAudio w h m e owns =
    rw (e, start_audio_for_call) (create_audio_state-OwnsAudio w h _ none none m owns)
