-- ===== src/Sockets.antt =====
-- src/utils/net/net.h, src/utils/net_udp/net_udp.h and src/utils/helper/utils.h: the calls of the operating system that
-- make sockets ready. A kernel answers a call by an integer, which may depend on the calls made before.
pub mod Outcomes
pub mod Start
pub mod Connection
pub mod Server
pub mod Client
use Prim.Native.Char.{code}
use Prim.Native.String.{String}
use group_trade_data_query.Common.{
  ℕ, ◌+◌, ◌*◌, ◌/◌, ◌%◌, Bool, true, false, List, [], ◌∷◌, ◌++◌, ◌==◌,
}
use group_trade_data_query.Common.Int.{ℤ, pos, negsuc}
use group_trade_data_query.Server.{Events}

-- The codes of the characters of a text.
abbrev pub codes : String → List ℕ
codes String.[] = []
codes (String.◌∷◌ c s) = code c ∷ codes s

-- `sockaddr_in`. The port is in the order of the network.
pub record SocketAddress : Type 0 where
  pub sin_family : ℕ
  pub sin_port : ℕ
  pub sin_addr : ℕ

pub data Transport : Type 0 where
  stream : Transport
  datagram : Transport

pub data SysCall : Type 0 where
  socket : Transport → SysCall
  epoll_create1 : SysCall
  reuse_addr : ℤ → SysCall
  reuse_port : ℤ → SysCall
  get_flags : ℤ → SysCall
  set_flags : ℤ → ℕ → SysCall
  bind : ℤ → SocketAddress → SysCall
  epoll_add : ℤ → ℤ → Events → SysCall
  listen : ℤ → SysCall
  connect : ℤ → SocketAddress → SysCall
  close : ℤ → SysCall

abbrev pub Kernel : Type 0
Kernel = List SysCall → SysCall → ℤ

-- A function returns, or throws a std::runtime_error with a message.
pub data Outcome (A : Type 0) : Type 0 where
  returned : A → Outcome A
  thrown : List ℕ → Outcome A

-- Code that makes calls, from the calls made before to those made after.
abbrev pub Sys : Type 0 → Type 0
Sys A = Kernel → List SysCall → Outcome A × List SysCall

abbrev pub proceed :
    {A B : Type 0} → (A → Sys B) → Kernel → Outcome A × List SysCall → Outcome B × List SysCall
proceed f kernel (returned a, log) = f a kernel log
proceed f kernel (thrown message, log) = (thrown message, log)

infixl 5 ◌>>=◌ ◌>>◌
abbrev pub ◌>>=◌ : {A B : Type 0} → Sys A → (A → Sys B) → Sys B
m >>= f = λ kernel log. proceed f kernel (m kernel log)

abbrev pub ◌>>◌ : {A B : Type 0} → Sys A → Sys B → Sys B
m >> k = m >>= λ _. k

abbrev pub pure : {A : Type 0} → A → Sys A
pure a = λ kernel log. (returned a, log)

abbrev pub call : SysCall → Sys ℤ
call c = λ kernel log. (returned (kernel log c), log ++ (c ∷ []))

abbrev pub is_negative : ℤ → Bool
is_negative (pos n) = false
is_negative (negsuc n) = true

abbrev pub is_minus_one : ℤ → Bool
is_minus_one (pos n) = false
is_minus_one (negsuc n) = n == 0

unfoldable pub check_error : Bool → List ℕ → Sys (Unit {0})
check_error true message = λ kernel log. (thrown message, log)
check_error false message = pure tt

unfoldable pub create_socket : Transport → Sys ℤ
unfolding check_error
create_socket transport = do
  sock ← call (socket transport)
  check_error (is_negative sock) (codes "Socket creation error\n")
  pure sock

-- The order of the bytes on the network is the reverse of the order in memory.
abbrev pub htons : ℕ → ℕ
htons port = port % 256 * 256 + port / 256 % 256

abbrev pub af_inet : ℕ
af_inet = 2

-- `memory` is what `address.sin_addr` holds, which is not set. The port is converted to a uint16_t.
unfoldable pub create_address : ℕ → ℕ → SocketAddress
create_address memory port = record {
  sin_family = af_inet;
  sin_port = htons (port % 0x1_0000);
  sin_addr = memory;
}
