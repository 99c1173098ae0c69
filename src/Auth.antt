-- ===== src/Auth.antt =====
-- Authentication as in src/auth_utils.c and src/auth_utils.h: Base64, the Basic header, the
-- Authorization header of a request, and the check of HTTP, RTSP and ONVIF requests.
--
-- C strings are lists of bytes without the terminating zero. Pointers that the callers never
-- leave NULL are not optional here. A buffer that is overrun is the result `fault`.
pub mod Base64
pub mod Basic
pub mod Check
mod Examples
