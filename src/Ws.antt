-- ===== src/Ws.antt =====
-- The WebSocket state stream (internal/ws): the frames, the queues of a client, and what a hub hands
-- to its clients. Clock readings and the states of the sessions are arguments, times are in
-- nanoseconds. `F` is the type of the floating-point numbers.
pub mod Render
pub mod Client
pub mod Drain
pub mod Stream
pub mod Hub
mod Tests
use remoses.Prelude.{ℕ, String, Bool, Option, List}
use remoses.Prelude.Int.{ℤ}
use remoses.Radio.{Power, Meter, CwStatus, VfoState, State, Patch}
use remoses.Rig.Cache.{EventKind}

-- One event as the manager hands it out.
pub record Event {ℓ} (F : Type ℓ) : Type ℓ where
  pub kind : EventKind
  pub radio_id : String
  pub seq : ℕ
  pub at_time : ℕ
  pub state : State F
  pub patch : Patch F
  pub err : String
  pub dropped : ℕ

-- What waits in the event lane of a client.
pub record DiscreteEvent : Type 0 where
  pub kind : EventKind
  pub radio_id : String
  pub seq : ℕ
  pub at_time : ℕ
  pub cw : CwStatus
  pub up : Bool
  pub err : String

-- The object `changed` of a delta. The outer option is whether the member is there, the inner one of
-- the members that can be null is its value.
pub record Changed {ℓ} (F : Type ℓ) : Type ℓ where
  pub frequency : Option ℕ
  pub mode : Option ℕ
  pub data_mode : Option Bool
  pub passband_hz : Option ℤ
  pub filter_slot : Option ℤ
  pub power : Option (Power F)
  pub ptt : Option Bool
  pub s_meter : Option (Meter F)
  pub power_meter : Option (Option (Meter F))
  pub swr : Option (Option (Meter F))
  pub alc : Option (Option (Meter F))
  pub swr_ratio : Option (Option F)
  pub tuner : Option String
  pub standby : Option Bool
  pub cw : Option CwStatus
  pub connected : Option Bool
  pub preamp : Option (Option ℤ)
  pub attenuator_db : Option (Option ℤ)
  pub rf_gain : Option (Option F)
  pub agc : Option String
  pub ip_plus : Option (Option Bool)
  pub digi_sel : Option (Option Bool)
  pub digi_sel_shift : Option (Option F)
  pub noise_blanker : Option (Option ℤ)
  pub nb_level : Option (Option F)
  pub noise_reduction : Option (Option ℤ)
  pub nr_level : Option (Option F)
  pub notch : Option (Option Bool)
  pub notch_freq : Option (Option F)
  pub notch_width : Option String
  pub auto_notch : Option (Option Bool)
  pub antenna : Option (Option ℤ)
  pub rx_antenna : Option (Option Bool)
  pub tx_audio_gain : Option (Option F)
  pub proc : Option (Option Bool)
  pub proc_level : Option (Option F)
  pub vfo : Option ℕ
  pub vfo_a : Option VfoState
  pub vfo_b : Option VfoState
  pub split : Option Bool
  pub dual_watch : Option Bool
  pub sub_s_meter : Option (Meter F)
  pub selected_band : Option String
  pub break_in : Option String

-- The frames: for `hello` the version, the radios and the clock, for the others the radio, the number
-- of the state and the time, and then what the frame tells.
pub data Message {ℓ} (F : Type ℓ) : Type ℓ where
  hello_msg : String → List String → ℕ → Message F
  state_msg : String → ℕ → ℕ → State F → Message F
  delta_msg : String → ℕ → ℕ → Changed F → Message F
  cw_msg : String → ℕ → ℕ → Bool → ℤ → ℤ → Message F
  conn_msg : String → ℕ → ℕ → Bool → String → Message F
  resync_msg : String → ℕ → ℕ → Message F
