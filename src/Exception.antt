-- ===== src/Exception.antt =====
-- src/exception/Exception.h: the exception classes, what each prints, and what a handler
-- `catch (Exception e)` keeps of them.
use mathlib.Core.List.{◌++◌}
use multipath_proxy.Text.{Text, codes}

pub data ExceptionClass : Type 0 where
  base not_implemented_error network_exception socket_error_exception : ExceptionClass
  socket_closed_exception sock_addr_error_exception not_found_exception : ExceptionClass
  id_already_exists_exception utils_exception connection_closed_exception : ExceptionClass
  got_close_packet_exception listener_closed_exception : ExceptionClass
  socket_already_connected_exception buffer_realloc_error : ExceptionClass

-- An object of a class, with the field `message_`.
pub record Exception : Type 0 where
  pub class : ExceptionClass
  pub message : Text

-- The word that `ToString` puts in front.
pub class_name : ExceptionClass → Text
class_name ExceptionClass.base = codes "Exception"
class_name ExceptionClass.not_implemented_error = codes "NotImplementedError"
class_name ExceptionClass.network_exception = codes "NetworkException"
class_name ExceptionClass.socket_error_exception = codes "SocketErrorException"
class_name ExceptionClass.socket_closed_exception = codes "SocketClosedException"
class_name ExceptionClass.sock_addr_error_exception = codes "SockAddrErrorException"
class_name ExceptionClass.not_found_exception = codes "NotFoundException"
class_name ExceptionClass.id_already_exists_exception = codes "IdAlreadyExistsException"
class_name ExceptionClass.utils_exception = codes "UtilsException"
class_name ExceptionClass.connection_closed_exception = codes "ConnectionClosedException"
class_name ExceptionClass.got_close_packet_exception = codes "GotClosePacketException"
class_name ExceptionClass.listener_closed_exception = codes "ListenerClosedException"
class_name ExceptionClass.socket_already_connected_exception =
    codes "SocketAlreadyConnectedException"
class_name ExceptionClass.buffer_realloc_error = codes "BufferReallocError"

-- `ToString` of the static type.
unfoldable pub to_string : Exception → Text
unfolding class_name
to_string e = class_name e.class ++ (codes "[" ++ (e.message ++ codes "]"))

-- `what`.
abbrev pub what : Exception → Text
what e = e.message

-- `catch (Exception e)` copies the base part: the class is gone, the message stays.
unfoldable pub slice : Exception → Exception
slice e = record e { class = ExceptionClass.base }
