-- ===== src/Channel/Poll.antt =====
-- POLLIN, POLLPRI, POLLOUT, POLLERR, POLLHUP, POLLNVAL and POLLRDHUP, as the places of their bits.
use muduo_net_zxl.Prelude.{ℕ}

abbrev pub in_bit : ℕ
in_bit = 0

abbrev pub pri_bit : ℕ
pri_bit = 1

abbrev pub out_bit : ℕ
out_bit = 2

abbrev pub err_bit : ℕ
err_bit = 3

abbrev pub hup_bit : ℕ
hup_bit = 4

abbrev pub nval_bit : ℕ
nval_bit = 5

abbrev pub rdhup_bit : ℕ
rdhup_bit = 13
