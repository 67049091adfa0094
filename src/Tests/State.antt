-- ===== src/Tests/State.antt =====
-- Runs of the pending requests and of the sync manager of pkg/messagix.
use meta_matrix_bridge.Prelude.{
  ℕ, suc, ◌≡◌, refl, List, [], ◌∷◌, ◌++◌, true, false, none, some, arith, length, map,
  if◌then◌else◌, ltb,
}
use meta_matrix_bridge.Prelude.Text.{codes}
use meta_matrix_bridge.Prelude.Assoc.{find, alter}
use meta_matrix_bridge.Pending.{
  request_channel, packet_channel, ResponseHandler, open_channel, get_channel, update_channel,
  add_channel, wait_for_details, received, timed_out, timeout, answer, channel_not_found,
  connection_closed, sent, missing, panics, send_to, wake_up, cancel_all_requests,
}
use meta_matrix_bridge.Pending.Validity.{IsValid}
use meta_matrix_bridge.Pending.Steps.{Operation, add, update, wait, cancel, perform_all, Ends}
use meta_matrix_bridge.Pending.Cancel.{perform_all-Ends, cancel_all_requests-wakes, send_to-panics}
use meta_matrix_bridge.Pending.Answers.{wait_for_details-answer}
use meta_matrix_bridge.Sync.{
  QueryMetadata, SyncManager, Transaction, ThreadsRange, sync_transactions, get_cursor,
  update_sync_group_cursors,
}
use meta_matrix_bridge.Sync.Socket.{sync_socket_data, finished, awaiting}
use meta_matrix_bridge.Sync.Cursors.{
  get_cursor-sync_transactions, sync_transactions-stops, update_sync_group_cursors-forgets, latest,
}
use meta_matrix_bridge.Sync.Follow.{sync_socket_data-followed, followed, last_of, single}

-- One request, with identifier 7, waits on channel 0.
abbrev one_waiting : ResponseHandler ℕ
one_waiting = record {
  entries = record { type = request_channel; packet_id = 7; channel = 0 } ∷ [];
  heap = λ c. open_channel;
  next = 1;
}

one_waiting-IsValid : IsValid one_waiting
one_waiting-IsValid = record { live = ((omega arith, refl), tt); distinct = (tt, tt) }

seven_found : get_channel request_channel 7 one_waiting.entries ≡ some 0
unfolding get_channel
seven_found = refl

abbrev busy : List (Operation ℕ)
busy =
    add packet_channel 8
    ∷ update request_channel 7 42
    ∷ wait received 7 request_channel
    ∷ cancel
    ∷ []

perform_all-Ends_example : Ends (perform_all busy one_waiting)
perform_all-Ends_example = perform_all-Ends busy one_waiting one_waiting-IsValid

wait_for_details-answer_example :
    (q : ResponseHandler ℕ) × (r : ResponseHandler ℕ) × (update_channel packet_channel
        (add_channel packet_channel one_waiting 9)
        9
        42
      ≡ sent q)
    × (wait_for_details received q 9 packet_channel ≡ some (answer 42, r))
    × (wait_for_details received r 9 packet_channel ≡ some (channel_not_found, r))
    × (update_channel packet_channel r 9 43 ≡ missing)
wait_for_details-answer_example = wait_for_details-answer one_waiting 9 packet_channel 42 43

cancel_all_requests-wakes_example :
    (q : ResponseHandler ℕ) × (cancel_all_requests one_waiting ≡ some q)
    × (wake_up received q 7 request_channel 0 ≡ some (connection_closed, q))
    × (q.entries ≡ [])
cancel_all_requests-wakes_example =
    cancel_all_requests-wakes one_waiting 7 request_channel 0 one_waiting-IsValid seven_found refl

send_to-panics_example :
    (q : ResponseHandler ℕ) × (wake_up timed_out one_waiting 7 request_channel 0
      ≡ some (timeout, q))
    × (send_to q 0 42 (q.heap 0) ≡ panics)
send_to-panics_example =
    send_to-panics one_waiting 7 request_channel 0 42 one_waiting-IsValid seven_found

abbrev mailbox_only : List (ℕ × QueryMetadata)
mailbox_only =
    (1, record { send_sync_params = false; last_applied_cursor = none; sync_channel = 1 }) ∷ []

abbrev manager : SyncManager
manager = record {
  store = mailbox_only;
  key_store = [];
  sync_params = record { mailbox = []; contact = []; e2ee = [] };
}

abbrev from_to : ℕ → List ℕ → List ℕ → Transaction
from_to db current next = record {
  database_id = db;
  current_cursor = current;
  next_cursor = next;
  send_sync_params = false;
  sync_channel = 1;
}

abbrev two_steps : List Transaction
two_steps = from_to 1 [] (codes "a") ∷ from_to 1 (codes "a") (codes "b") ∷ []

mailbox_known : (m : QueryMetadata) × (find 1 mailbox_only ≡ some m)
unfolding find
mailbox_known = (_, refl)

get_cursor-sync_transactions_example :
    ((sync_transactions two_steps mailbox_only).0 ≡ none)
    × (get_cursor (sync_transactions two_steps mailbox_only).1 1
        ≡ latest 1 two_steps (get_cursor mailbox_only 1))
get_cursor-sync_transactions_example =
    get_cursor-sync_transactions two_steps mailbox_only 1 (mailbox_known, (mailbox_known, tt))

contacts_unknown : find 2 (sync_transactions two_steps mailbox_only).1 ≡ none
unfolding find sync_transactions alter
contacts_unknown = refl

sync_transactions-stops_example :
    sync_transactions (two_steps ++ (from_to 2 [] (codes "c") ∷ two_steps)) mailbox_only
    ≡ (some 2, (sync_transactions two_steps mailbox_only).1)
sync_transactions-stops_example =
    sync_transactions-stops two_steps two_steps (from_to 2 [] (codes "c")) mailbox_only
      (mailbox_known, (mailbox_known, tt)) contacts_unknown

abbrev unknown_group : ThreadsRange
unknown_group = record {
  sync_group = 3;
  parent_thread_key = 0;
  min_last_activity_timestamp_ms = 0;
  has_more_before = true;
  min_thread_key = 0;
}

update_sync_group_cursors-forgets_example :
    (update_sync_group_cursors
      (record { ranges = unknown_group ∷ []; transactions = from_to 1 [] (codes "a") ∷ [] })
      manager).0
    ≡ none
update_sync_group_cursors-forgets_example =
    update_sync_group_cursors-forgets manager (unknown_group ∷ []) (from_to 1 [] (codes "a")) []
      (mailbox_known, tt)

sync_socket_data-followed_example :
    (length (sync_socket_data (map (single 1) two_steps) 1 manager).queries
      ≡ suc (length (followed 1 (get_cursor mailbox_only 1) two_steps)))
    × (get_cursor (sync_socket_data (map (single 1) two_steps) 1 manager).manager.store 1
        ≡ last_of (get_cursor mailbox_only 1) (followed 1 (get_cursor mailbox_only 1) two_steps))
    × ((sync_socket_data (map (single 1) two_steps) 1 manager).result ≡ (
        if ltb (length (followed 1 (get_cursor mailbox_only 1) two_steps)) 2
        then finished
        else awaiting))
sync_socket_data-followed_example = sync_socket_data-followed 1 two_steps manager mailbox_known
