-- ===== src/Usb/Start.antt =====
-- src/output/usb/hid.cpp: `usb_hid_init` and `usb_hid_uninit`, with CONFIG_PASSINGLINK_OUTPUT_USB_DEFERRED.
use passinglink.Common.{ℕ, Bool, true, Option, none, some, List, [], ◌∷◌, ◌++◌, if◌then◌else◌}

-- The calls of Zephyr and of the driver.
pub data HidCall : Type 0 where
  work_q_start delayed_work_init driver_init register_device hid_init usb_enable : HidCall
  delayed_work_cancel usb_disable unregister_device driver_deinit metrics_reset : HidCall

-- What the calls answer, `none` for success, and whether the device `HID_0` is there.
pub record HidAnswers : Type 0 where
  pub init : Option ℕ
  pub has_device : Bool
  pub hid_init_answer : Option ℕ
  pub enable : Option ℕ

-- The statics `hid`, as the driver that it points to, `usb_hid_device`, as whether it is set, and
-- `hid_work_q_running`, and the calls, the oldest first.
pub record HidStart (D : Type 0) : Type 0 where
  pub hid : D
  pub has_device : Bool
  pub work_q_running : Bool
  pub calls : List HidCall

abbrev pub enodev : ℕ
enodev = 19

module _ {D : Type 0} where
  abbrev pub then_call : List HidCall → HidStart D → HidStart D
  then_call cs s = record s { calls = s.calls ++ cs }

  -- From `usb_hid_init` of Zephyr on.
  abbrev pub enable_usb : HidAnswers → HidStart D → Option ℕ × HidStart D
  enable_usb a s =
      let registered = then_call (register_device ∷ hid_init ∷ []) s in
      elim a.hid_init_answer [
        | some rc ↦ (some rc, registered)
        | none ↦ (a.enable, then_call (usb_enable ∷ []) registered)
      ]

  -- `queue` is CONFIG_PASSINGLINK_OUTPUT_USB_DEFERRED_WORK_QUEUE. The result is the error, `none` for 0.
  unfoldable pub usb_hid_init : Bool → HidAnswers → D → HidStart D → Option ℕ × HidStart D
  usb_hid_init queue a hid_impl s =
      let queued =
        if queue
        then (if s.work_q_running
            then s
            else then_call (work_q_start ∷ []) (record s { work_q_running = true }))
        else s in
      let begun =
        then_call (delayed_work_init ∷ driver_init ∷ []) (record queued { hid = hid_impl }) in
      elim a.init [
        | some rc ↦ (some rc, begun)
        | none ↦
            let bound = record begun { has_device = a.has_device } in
            if a.has_device then enable_usb a bound else (some enodev, bound)
      ]

  unfoldable pub usb_hid_uninit : HidStart D → HidStart D
  usb_hid_uninit s =
      then_call
        (delayed_work_cancel ∷ usb_disable ∷ unregister_device ∷ driver_deinit ∷ metrics_reset ∷ [])
        s
