-- ===== src/Wisp/AdminPlane.antt =====
-- wisp/server/src/admin/admin_plane.c: one connection of an admin client. The query goes to the thread
-- of the control plane by Wisp.Channel, and that thread answers it as in Wisp.Loop.
pub mod Answers
use pi_ghost.Base.{
  ℕ, suc, Bool, true, false, List, [], ◌∷◌, Option, none, some, if◌then◌else◌, ◌==◌, length, take,
  Text,
}
use pi_ghost.Wisp.Types.{Timespec, client_id_len}
use pi_ghost.Wisp.Control.{ControlPlane}
use pi_ghost.Wisp.Loop.{AdminClientInfo, SwitchResponse, handle_list_query, handle_switch_query}
use pi_ghost.Wisp.Wire.{
  Answer, Bytes, Outcome, returned, error, blocked, Message, message, too_large, ctrl_recv,
}

abbrev pub recv_buf_size : ℕ
recv_buf_size = 4096

-- WISPS_ADMIN_MSG_LIST_REQUEST and WISPS_ADMIN_MSG_SWITCH_REQUEST
abbrev pub list_request : ℕ
list_request = 1

abbrev pub switch_request : ℕ
switch_request = 3

pub data AdminCall : Type 0 where
  sends_list : List AdminClientInfo → AdminCall
  sends_switch : SwitchResponse → AdminCall
  closes_client : AdminCall

-- The text of a char array: what stands before its first NUL.
abbrev pub c_text : Bytes → Text
c_text [] = []
c_text (c ∷ cs) = let rest = c_text cs in if c == 0 then [] else c ∷ rest

-- The control plane, and the calls in their order.
abbrev pub Handled : Type 0
Handled = ControlPlane × List AdminCall

abbrev pub handle_list : ControlPlane → Handled
handle_list cp = (cp, sends_list (handle_list_query cp) ∷ closes_client ∷ [])

abbrev switched_to : SwitchResponse × ControlPlane → Handled
switched_to (response, cp) = (cp, sends_switch response ∷ closes_client ∷ [])

-- The last byte of the id is set to NUL.
abbrev pub handle_switch : ControlPlane → Timespec → Bytes → Handled
handle_switch cp now client_id =
    switched_to (handle_switch_query cp now (c_text (take 31 client_id)))

-- The request, by its kind.
abbrev pub handle_request : ControlPlane → Timespec → ℕ → Bytes → Handled
handle_request cp now kind payload =
    if kind == list_request
    then handle_list cp
    else if kind == switch_request
    then (if length payload == client_id_len
        then handle_switch cp now payload
        else (cp, closes_client ∷ []))
    else (cp, closes_client ∷ [])

-- The result of wisp_ctrl_recv: -1, -2 or a message.
abbrev pub handle_received :
    ControlPlane → Timespec → Outcome (Message × Bytes × List Answer) → Option Handled
handle_received cp now (returned (message kind payload, wire, os)) =
    some (handle_request cp now kind payload)
handle_received cp now (returned (too_large kind, wire, os)) = some (cp, closes_client ∷ [])
handle_received cp now error = some (cp, closes_client ∷ [])
handle_received cp now blocked = none

-- One connection, from the bytes on its socket; `none` where the receive still waits.
abbrev pub handle_connection : ControlPlane → Timespec → List Answer → Bytes → Option Handled
handle_connection cp now os wire = handle_received cp now (ctrl_recv os wire recv_buf_size)
