-- ===== src/Device/Assignments.antt =====
-- tools/vcam_selftest.c: the assignments of `main` to its variables.
use vcam_kmod.Base.{ℕ, [], ◌∷◌}
use vcam_kmod.Base.Int.{ℤ, pos}
use vcam_kmod.Uapi.{Version, Frame, Dequeue, Poll}
use vcam_kmod.Logic.Format.{yv12}
use vcam_kmod.Device.Expect.{Statement, assign}

-- The structures after `memset`.
abbrev pub zero_dequeue : Dequeue
zero_dequeue = record {
  seq = 0;
  slot = 0;
  resolved_angle_deg = 0;
  resolved_mirror = 0;
  reserved = 0;
}

abbrev pub zero_version : Version
zero_version = record { abi = 0; max_streams = 0; pool_size = 0; reserved = 0 }

abbrev pub zero_poll : Poll
zero_poll = record { client_attached = 0; width_delta = 0; height_delta = 0; format = 0 }

-- The frame that is registered.
abbrev pub first_frame : ℤ → Frame
first_frame fd = record {
  fd = fd;
  stream_id = 0;
  slot = 0;
  rotation_deg = 0;
  flags = 0;
  seq = 0;
  timestamp_ns = pos 0;
  fmt = record {
    width = 64;
    height = 64;
    fourcc = yv12;
    num_planes = 3;
    plane =
        record { offset = 0; stride = 64 }
        ∷ record { offset = 0; stride = 32 }
        ∷ record { offset = 0; stride = 32 }
        ∷ [];
  };
}

abbrev pub clear_dq : Statement
clear_dq = assign λ v. record v { dq = zero_dequeue }

abbrev pub clear_poll : Statement
clear_poll = assign λ v. record v { poll = zero_poll }

abbrev pub put_pose : (flags rotation_deg : ℕ) → ℤ → Statement
put_pose flags rot media = assign λ v. record v {
  pose = record { flags = flags; rotation_deg = rot; media_rotation_deg = media; reserved = 0 };
}

abbrev pub put_range : ℤ → ℤ → ℕ → Statement
put_range b e loop =
    assign λ v. record v { range = record { begin_ns = b; end_ns = e; loop = loop; reserved = 0 } }

abbrev pub put_seq : ℕ → Statement
put_seq n = assign λ v. record v { frame = record (v.frame) { seq = n } }

abbrev pub put_seq_at : ℕ → ℤ → Statement
put_seq_at n t = assign λ v. record v { frame = record (v.frame) { seq = n; timestamp_ns = t } }
