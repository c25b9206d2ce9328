-- ===== src/Relay/Dispatch.antt =====
-- src/dev_opt.c, read_video_data_from_dev_task: the loop over the clients of a frame. The list holds
-- the addresses of the clients, and a store has what they point to.
use box_rtsp.Prelude.{ℕ, zero, suc, ◌+◌, ◌-◌, true, false, none, some, ◌==◌, if◌then◌else◌, ltb}
use box_rtsp.Rtsp.Exec.{Halt, Exec, ok, halt, ◌>>=◌}
use box_rtsp.Relay.Lists.{Evbuffer, ListT}
use box_rtsp.Relay.Packets.{Packet}
use box_rtsp.Relay.Client.{Client, visit}

abbrev pub Store : Type 0 → Type 0
Store B = ℕ → Client B

abbrev pub update : {B : Type 0} → Store B → ℕ → Client B → Store B
update s a c = λ b. if b == a then c else s b

module _ {B L : Type 0} (e : Evbuffer B) (t : ListT L) where
  -- The turns from position `i` on, while `i < client_num`. A NULL element is read through.
  unfoldable pub visit_from : ℕ → Packet → ℕ → ℕ → L → Store B → Exec (L × Store B)
  visit_from zero k i client_num l s = if ltb i client_num then halt Halt.spins else ok (l, s)
  visit_from (suc fuel) k i client_num l s = elim (ltb i client_num) [
    | false ↦ ok (l, s)
    | true ↦ elim (t.list_get_at l i) [
      | none ↦ halt Halt.faults
      | some a ↦ visit e k (s a) >>= elim [
        | none ↦ visit_from fuel k i (client_num - 1) (t.list_delete l a) s
        | some c ↦ visit_from fuel k (i + 1) client_num l (update s a c)
      ]
    ]
  ]

  -- The frame is given to every client of the list.
  unfoldable pub dispatch : Packet → L → Store B → Exec (L × Store B)
  dispatch k l s = visit_from (t.list_size l) k 0 (t.list_size l) l s
