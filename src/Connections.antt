-- ===== src/Connections.antt =====
-- What both servers keep for their clients: the reliable senders, by address, over the dispatcher
-- of the server's socket, and the receiver. Both servers have the same `_get_sender`.
pub mod Lifecycle
use rdt_mail_service.Prelude.{
  ℕ, ◌≡◌, arith, List, [], ◌∷◌, ◌++◌, Option, none, some, Dict, lookup, insert, erase, length,
  if◌then◌else◌,
}
use rdt_mail_service.Prelude.Text.{Text, text_eq, ends_with, cr, lf}
use rdt_mail_service.Rdt.Dispatcher.{Addr, addr_eq, Dispatcher, Arrival}
use rdt_mail_service.Rdt.Sender.{Sender, Sent, new_sender, send}
use rdt_mail_service.Rdt.Receiver.{Receiver, reset_state}

-- `replies` are the texts that were passed to `send`, the oldest first.
pub record Connections : Type 0 where
  pub senders : Dict Addr Sender
  pub dispatcher : Dispatcher
  pub receiver : Receiver
  pub replies : List (Addr × Text)

-- What the dispatcher's thread receives in the n-th attempt to send the m-th reply; `none` if
-- `sendto` raises in it.
abbrev pub Network : Type 0
Network = ℕ → ℕ → Option (List Arrival)

abbrev known_sender : Addr → Option Sender → Connections → Sender × Connections
known_sender addr (some s) c = (s, c)
known_sender addr none c =
    let (s, d) = new_sender addr c.dispatcher in
    (s, record c { senders = insert addr s c.senders; dispatcher = d })

unfoldable pub get_sender : Addr → Connections → Sender × Connections
get_sender addr c = known_sender addr (lookup addr c.senders) c

-- `self._get_sender(addr).send(bytes)`; the sender is an object, so its number is kept.
unfoldable pub transmit : Network → Addr → Text → Connections → Sent × Connections
unfolding get_sender
transmit network addr bytes c =
    let (s, c') = get_sender addr c in
    let (outcome, s', d') = send bytes (network (length c.replies)) s c'.dispatcher in
    (
      outcome,
      record c' {
        senders = insert addr s' c'.senders;
        dispatcher = d';
        replies = c'.replies ++ (addr, bytes) ∷ [];
      },
    )

-- The end of a line, unless it is there.
unfoldable pub end_line : Text → Text
unfolding ends_with
end_line msg = if ends_with msg (cr ∷ lf ∷ []) then msg else msg ++ cr ∷ lf ∷ []

-- What is left of a client that quits: no sender, and no sequence number.
unfoldable pub forget : Addr → Connections → Connections
unfolding reset_state
forget addr c = record c { senders = erase addr c.senders; receiver = reset_state addr c.receiver }

pub replies-get_sender : (addr : Addr) (c : Connections) → (get_sender addr c).1.replies ≡ c.replies
unfolding get_sender
replies-get_sender addr c = ground arith
