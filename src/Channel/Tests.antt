-- ===== src/Channel/Tests.antt =====
-- Channel.cc on concrete events.
use muduo_net_zxl.Prelude.{◌≡◌, true, [], ◌∷◌, negsuc}
use muduo_net_zxl.Channel.{Channel, handle_event}
use muduo_net_zxl.Channel.Dispatch.{error, write, read, logging, handle_event-order}

-- POLLIN, POLLOUT, POLLERR and POLLHUP at once: the hang-up waits.
abbrev busy : Channel
busy = record { fd = 3; events = 7; revents = 29; index = negsuc 0 }

handle_event-order_example :
    handle_event busy (logging true true true true) 9 [] ≡ error ∷ read 9 ∷ write ∷ []
handle_event-order_example = handle_event-order busy true true true true 9
