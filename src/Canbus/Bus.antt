-- ===== src/Canbus/Bus.antt =====
-- What a write leaves as it was of the controller: what its sends do not change.
use dtmc_zephyr.Prelude.{
  ℕ, zero, suc, ℤ, ◌+◌, ◌-◌, ◌≡◌, refl, ◌∙◌, ap, ◌⊎◌, inl, inr, Bool, Option, none, some, List,
  arith, ltb, if◌then◌else◌, pos_part,
}
use dtmc_zephyr.Err.{Rc, success}
use dtmc_zephyr.Port.Ring.{RingFifo}
use dtmc_zephyr.Port.Core.{CoreHelper}
use dtmc_zephyr.Port.Can.{CanFrame, CanDriver}
use dtmc_zephyr.Canbus.Object.{World}
use dtmc_zephyr.Canbus.Write.{send_attempts, write_loop, finish, write}
use dtmc_zephyr.Canbus.Setup.{after_send, send_ret, next_world, write_loop_cases}

module _ {F B : Type 0} (ring : RingFifo F) (core : CoreHelper) (driver : CanDriver B)
    (g : B → Bool)
    (keeps : (b : B) (f : CanFrame) (ms : ℕ) → g (driver.can_send b f ms).0 ≡ g b) where
  no_attempt :
      (w : World F B) (frame : CanFrame) (ret : Rc)
      → (send_attempts ring core driver zero w frame ret).world.bus ≡ w.bus
  unfolding send_attempts
  no_attempt w frame ret = refl

  attempt_cases :
      (left : ℕ) (w : World F B) (frame : CanFrame) (ret : Rc)
      → let out = send_attempts ring core driver (suc left) w frame ret in
        (out.world.bus ≡ w.bus)
        ⊎ (out.world.bus ≡ (after_send ring core driver w frame).bus)
        ⊎ (out
            ≡ send_attempts ring core driver left
                (after_send ring core driver w frame)
                frame
                (send_ret ring core driver w frame))
  unfolding send_attempts
  attempt_cases left w frame ret = ground arith

  send_attempts-bus :
      (left : ℕ) (w : World F B) (frame : CanFrame) (ret : Rc)
      → g (send_attempts ring core driver left w frame ret).world.bus ≡ g w.bus
  send_attempts-bus zero w frame ret = ap g (no_attempt w frame ret)
  send_attempts-bus (suc left) w frame ret =
      let next = after_send ring core driver w frame in
      let sent : g next.bus ≡ g w.bus = keeps w.bus frame _ in
      elim (attempt_cases left w frame ret) [
        | inl e ↦ ap g e
        | inr (inl e) ↦ ap g e ∙ sent
        | inr (inr e) ↦
            ap (λ out. g out.world.bus) e
            ∙ send_attempts-bus left next frame (send_ret ring core driver w frame)
            ∙ sent
      ]

  no_round :
      (w : World F B) (buf : List ℕ) (len total : ℕ)
      → (write_loop ring core driver zero w buf len total).world.bus ≡ w.bus
  unfolding write_loop
  no_round w buf len total = refl

  write_loop-bus :
      (rounds : ℕ) (w : World F B) (buf : List ℕ) (len total : ℕ)
      → g (write_loop ring core driver rounds w buf len total).world.bus ≡ g w.bus
  write_loop-bus zero w buf len total = ap g (no_round w buf len total)
  write_loop-bus (suc rounds) w buf len total =
      let n = if ltb 8 (len - total) then 8 else len - total in
      let round = send_attempts-bus w.self.tx_retry_count w _ success in
      let next = next_world ring core driver w buf len total in
      elim (write_loop_cases ring core driver rounds w buf len total) [
        | inl e ↦ ap (λ (v : World F B). g v.bus) e
        | inr (inl e) ↦ ap (λ (v : World F B). g v.bus) e ∙ round
        | inr (inr e) ↦
            ap (λ out. g out.world.bus) e ∙ write_loop-bus rounds next buf len (total + n) ∙ round
      ]

  finish-bus :
      (w : World F B) (buf : List ℕ) (len : ℕ)
      → (finish ring core driver (write_loop ring core driver len w buf len 0)).world.bus
        ≡ (write_loop ring core driver len w buf len 0).world.bus
  unfolding finish
  finish-bus w buf len = ground arith

  pub write-bus :
      (w : World F B) (buf : Option (List ℕ)) (len : ℤ) (has_out : Bool)
      → g (write ring core driver w buf len has_out).world.bus ≡ g w.bus
  unfolding write
  write-bus w none len has_out = refl
  write-bus w (some buf) len has_out =
      let done =
        ap g (finish-bus w buf (pos_part len))
        ∙ write_loop-bus (pos_part len) w buf (pos_part len) 0 in
      ground (arith, done)
