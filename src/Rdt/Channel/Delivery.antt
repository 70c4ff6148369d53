-- ===== src/Rdt/Channel/Delivery.antt =====
-- Every chunk is delivered once and in order, whatever the network loses and repeats.
use mathlib.Core.List.{List}
use rdt_mail_service.Prelude.{◌-◌, nat_eq}
use rdt_mail_service.Prelude.Text.{Text}
use rdt_mail_service.Rdt.Packet.{Packet}
use rdt_mail_service.Rdt.Dispatcher.{addr_eq, Dispatcher}
use rdt_mail_service.Rdt.Sender.{Sender}
use rdt_mail_service.Rdt.Channel.{Link}

abbrev flipped : Link → Sender
flipped l = record l.sender { curr_seq = 1 - l.sender.curr_seq }
