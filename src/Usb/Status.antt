-- ===== src/Usb/Status.antt =====
-- src/output/usb/hid.cpp: the callback for the state of the USB, and starting and stopping it.
use mathlib.Core.Bool.{true≢false}
use passinglink.Common.{
  ℕ, suc, ◌+◌, ◌-◌, ◌/◌, ◌%◌, Bool, true, false, not, ◌&&◌, Option, none, some, List, [], ◌∷◌, ◌++◌,
  ltb, ◌==◌, if◌then◌else◌, ◌≡◌, refl, ap, sym, ◌∙◌, Bool-cases, inl, inr, arith,
}

-- `usb_dc_status_code`; `clear_halt` has the endpoint that `param` points to.
pub data StatusCode : Type 0 where
  error reset connected configured disconnected suspend resume : StatusCode
  interface set_halt sof unknown : StatusCode
  clear_halt : ℕ → StatusCode

-- The calls that leave the callback.
pub data StatusCall : Type 0 where
  usb_reset_probe reboot do_write : StatusCall
  driver_clear_halt : ℕ → StatusCall

-- `suspend_timestamp`, in milliseconds, and the calls, the oldest first.
pub record UsbStatus : Type 0 where
  pub suspend_timestamp : Option ℕ
  pub calls : List StatusCall

abbrev pub call : List StatusCall → UsbStatus → UsbStatus
call cs s = record s { calls = s.calls ++ cs }

-- `several` is `PL_USB_OUTPUT_COUNT > 1`, `probed` whether the driver has a probe result, `now` is
-- `k_uptime_get()`.
unfoldable pub usb_status_cb : Bool → Bool → ℕ → StatusCode → UsbStatus → UsbStatus
usb_status_cb several probed now suspend s = record s { suspend_timestamp = some now }
usb_status_cb several probed now resume s =
    if several
    then (elim s.suspend_timestamp [
      | none ↦ s
      | some before ↦
          let late = not probed && ltb 1000 (now - before) in
          record (call (if late then usb_reset_probe ∷ reboot ∷ [] else []) s) {
            suspend_timestamp = none;
          }
    ])
    else s
usb_status_cb several probed now (clear_halt endpoint) s =
    call (driver_clear_halt endpoint ∷ (if endpoint / 128 % 2 == 1 then do_write ∷ [] else [])) s
usb_status_cb several probed now error s = s
usb_status_cb several probed now reset s = s
usb_status_cb several probed now connected s = s
usb_status_cb several probed now configured s = s
usb_status_cb several probed now disconnected s = s
usb_status_cb several probed now interface s = s
usb_status_cb several probed now set_halt s = s
usb_status_cb several probed now sof s = s
usb_status_cb several probed now unknown s = s

-- Changes of the state, each with its time and whether there is a probe result then.
abbrev pub statuses : Bool → List (ℕ × Bool × StatusCode) → UsbStatus → UsbStatus
statuses several [] s = s
statuses several ((now, probed, code) ∷ events) s =
    statuses several events (usb_status_cb several probed now code s)

-- How often the board is restarted.
abbrev pub reboots : List StatusCall → ℕ
reboots [] = 0
reboots (reboot ∷ cs) = suc (reboots cs)
reboots (usb_reset_probe ∷ cs) = reboots cs
reboots (do_write ∷ cs) = reboots cs
reboots (driver_clear_halt endpoint ∷ cs) = reboots cs

-- Neither suspending nor resuming.
abbrev pub is_other : StatusCode → Bool
is_other suspend = false
is_other resume = false
is_other _ = true

abbrev pub all_other : List (ℕ × Bool × StatusCode) → Bool
all_other [] = true
all_other ((now, probed, code) ∷ events) = is_other code && all_other events

reboots-append : (cs ds : List StatusCall) → reboots (cs ++ ds) ≡ reboots cs + reboots ds
reboots-append [] ds = omega arith
reboots-append (reboot ∷ cs) ds = omega (arith, reboots-append cs ds)
reboots-append (usb_reset_probe ∷ cs) ds = reboots-append cs ds
reboots-append (do_write ∷ cs) ds = reboots-append cs ds
reboots-append (driver_clear_halt endpoint ∷ cs) ds = reboots-append cs ds

other_lem :
    (several probed : Bool) (now : ℕ) (code : StatusCode) (s : UsbStatus)
    → is_other code ≡ true
    → ((usb_status_cb several probed now code s).suspend_timestamp ≡ s.suspend_timestamp)
      × (reboots (usb_status_cb several probed now code s).calls ≡ reboots s.calls)
unfolding usb_status_cb
other_lem several probed now suspend s other = absurd (true≢false (sym other))
other_lem several probed now resume s other = absurd (true≢false (sym other))
other_lem several probed now (clear_halt endpoint) s other = (
  refl,
  reboots-append s.calls
        (driver_clear_halt endpoint ∷ (if endpoint / 128 % 2 == 1 then do_write ∷ [] else []))
      ∙ elim (endpoint / 128 % 2 == 1)
          as (λ b. reboots s.calls + reboots (if b then do_write ∷ [] else []) ≡ reboots s.calls) [
            | true ↦ omega arith
            | false ↦ omega arith
          ],
)
other_lem several probed now error s other = (refl, refl)
other_lem several probed now reset s other = (refl, refl)
other_lem several probed now connected s other = (refl, refl)
other_lem several probed now configured s other = (refl, refl)
other_lem several probed now disconnected s other = (refl, refl)
other_lem several probed now interface s other = (refl, refl)
other_lem several probed now set_halt s other = (refl, refl)
other_lem several probed now sof s other = (refl, refl)
other_lem several probed now unknown s other = (refl, refl)

others_lem :
    (several : Bool) (events : List (ℕ × Bool × StatusCode)) (s : UsbStatus)
    → all_other events ≡ true
    → ((statuses several events s).suspend_timestamp ≡ s.suspend_timestamp)
      × (reboots (statuses several events s).calls ≡ reboots s.calls)
others_lem several [] s other = (refl, refl)
others_lem several ((now, probed, code) ∷ events) s other = elim (Bool-cases (is_other code)) [
  | inr loud ↦ absurd (true≢false (sym other ∙ rw loud refl))
  | inl calm ↦
      let step = other_lem several probed now code s calm in
      let rest =
        others_lem several events (usb_status_cb several probed now code s)
          (sym (rw calm refl) ∙ other) in
      (rest.0 ∙ step.0, rest.1 ∙ step.1)
]

resume_lem :
    (several probed : Bool) (before now : ℕ) (s : UsbStatus)
    → s.suspend_timestamp ≡ some before
    → ((usb_status_cb several probed now resume s).suspend_timestamp
        ≡ (if several then none else some before))
      × (reboots (usb_status_cb several probed now resume s).calls
          ≡ reboots s.calls + (if several && not probed && ltb 1000 (now - before) then 1 else 0))
unfolding usb_status_cb
resume_lem false probed before now s e = (e, omega arith)
resume_lem true probed before now s e = rw e (
  refl,
  reboots-append s.calls
        (if not probed && ltb 1000 (now - before) then usb_reset_probe ∷ reboot ∷ [] else [])
      ∙ elim (not probed && ltb 1000 (now - before))
          as (λ b.
            reboots s.calls + reboots (if b then usb_reset_probe ∷ reboot ∷ [] else [])
            ≡ reboots s.calls + (if b then 1 else 0)) [ true ↦ refl | false ↦ refl ],
)

statuses-append :
    (several : Bool) (xs ys : List (ℕ × Bool × StatusCode)) (s : UsbStatus)
    → statuses several (xs ++ ys) s ≡ statuses several ys (statuses several xs s)
statuses-append several [] ys s = refl
statuses-append several ((now, probed, code) ∷ xs) ys s =
    statuses-append several xs ys (usb_status_cb several probed now code s)

-- Between a suspension and the next resumption, whatever else happens to the USB, the board is restarted once if more
-- than a second has passed, it has several drivers and none has a probe result, and not at all otherwise; with several
-- drivers the time of the suspension is forgotten.
pub resume-reboots :
    (several probed_before probed : Bool) (before now : ℕ) (events : List (ℕ × Bool × StatusCode))
    (s : UsbStatus)
    → all_other events ≡ true
    → let cycle = (before, probed_before, suspend) ∷ events ++ (now, probed, resume) ∷ [] in
      let t = statuses several cycle s in
      (reboots t.calls
        ≡ reboots s.calls + (if several && not probed && ltb 1000 (now - before) then 1 else 0))
      × (t.suspend_timestamp ≡ (if several then none else some before))
unfolding usb_status_cb
resume-reboots several probed_before probed before now events s other =
    let s1 = record s { suspend_timestamp = some before } in
    let mid = statuses several events s1 in
    let apart = statuses-append several events ((now, probed, resume) ∷ []) s1 in
    let calm = others_lem several events s1 other in
    let last = resume_lem several probed before now mid calm.0 in
    (
      ap (λ (t : UsbStatus). reboots t.calls) apart
          ∙ last.1
          ∙ ap (λ n. n + (if several && not probed && ltb 1000 (now - before) then 1 else 0))
              calm.1,
      ap (λ (t : UsbStatus). t.suspend_timestamp) apart ∙ last.0,
    )
