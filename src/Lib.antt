-- ===== src/Lib.antt =====
-- strero, a camera streamer: a verification of its module system, frame manager, HTTP server,
-- RTSP server, RTMP server, day and night switch and authentication.
--
-- The program's main() registers its features as modules with the module system, which initialises,
-- starts, stops and cleans them up. The frame manager polls the video encoder and hands every frame
-- to the consumers that the modules register. Modules register HTTP routes with the router, which
-- dispatches the requests that the HTTP module accepts, and the HTTP, RTSP and ONVIF servers ask the
-- authentication functions whether a request may be answered.
--
-- Parts:
--   ModuleSystem   src/module_system.c, src/module_system.h
--     Registry, Registration   module_system_init, module_register, module_get_by_name
--     Loading                  module_load_config_file, the configuration of a module
--     Sweeps                   module_init_all, _start_all, _stop_all, _cleanup_all, RTSP hooks
--   FrameManager   src/frame_manager.c, src/frame_manager.h
--     Consumers, Delivery      registration, the lifecycle, distribute_frame_to_consumers
--     Nal                      detect_frame_type, extract_stream_params
--     Process                  process_frame_from_encoder, the loop of frame_processing_thread
--   HttpRouter     src/modules/http/http_router.c, src/modules/http/http_router.h
--     Table, Dispatch, Setup   the route table; request lines; init and cleanup
--   Auth           src/auth_utils.c, src/auth_utils.h
--     Base64, Basic, Check     the codec, the Basic header, the checks of requests, WS-Security
--   HttpServer     src/modules/http/http_module.c
--     Reading, Gate            a connection of http_module_server_thread: the reading of a
--                              request, and authentication before the dispatch
--     Lifecycle                http_module_init, _start, _stop, _cleanup
--   RtspServer     src/modules/rtsp/rtsp_server.c, src/modules/rtsp/rtsp_server.h
--     Rtp                      send_rtp_packet, send_h264_fragmented_rtp, send_h265_fragmented_rtp,
--                              and a receiver as RFC 6184 and RFC 7798 describe it
--     Frames                   send_frame_to_client, rtsp_server_send_frame, the RTP clock
--     Text, Messages           sscanf and snprintf; parse_rtsp_request, the stream of a URL
--     Responses, Describe      send_rtsp_response, generate_sdp
--     Session                  handle_client_connection and the handlers of the methods
--     Slots                    the rounds of server_thread_func over the client slots
--     Lifecycle                rtsp_server_start, rtsp_server_stop
--   RtmpServer     src/modules/rtmp_server/rtmp_server.c, src/modules/rtmp_server/rtmp_server.h
--     Socket                   rtmp_read_bytes, rtmp_write_bytes; a socket that stays connected
--     Chunks                   rtmp_chunk_read, rtmp_chunk_write and their headers
--     Amf, Commands            amf_encode_ and amf_decode_ functions; rtmp_command_parse
--     Sending, Handling        rtmp_send_ functions; rtmp_command_handle, rtmp_message_parse
--     Handshake, Serving       rtmp_handshake_process; rtmp_connection_handle
--     Connections              accept, clean-up, destruction; rtmp_server_send_frame
--   Photosensing   src/modules/photosensing/photosensing_module.c
--     Ircut, Lifecycle         photosensing_set_ircut; init, start, stop, cleanup
--     Control                  photosensing_control_thread
--   Prelude        lists, bytes and C strings, the results of C functions as integers
-- Each part has a module Examples with the runs on concrete data.
--
-- A C function is a function with the same name from the state before to its result and the state
-- after. The static variables of a file are one record. What lies outside a file and is changed by
-- callbacks is an abstract world, which every callback may transform. NULL is `none`. A C string is
-- the list of its bytes; a buffer of fixed size cuts it where the source does. Results of -1 are
-- `minus_one`. `unsigned long` and `uint32_t` have 32 bits, as on the MIPS targets. A read or write
-- out of bounds is a value of its own (`none`, `fault`, `read_out_of_bounds`), not a state.
--
-- Parameters: the C library, json-c and the file system of module_load_config_file (`Platform`),
-- the encoder behind the HAL (`Hal`), metrics and configuration (`Setup`), recv and atoi
-- (`Network`), the answers of the HTTP server (`Answers`), the sockets and the TLS library under
-- RTP (`Sockets`), what the outside answers during an RTSP request (`Outside`) or a new connection
-- (`Connection`), the sockets, malloc, time and rand under the RTMP server (`Wire`), the image
-- processor, the files and the floats under the day and night switch (`Board`, `Floats`),
-- getpeername and inet_ntop, and what pthread calls return.
-- The loop of extract_stream_params runs on fuel, one more than the frame has bytes, the search for
-- start codes of the RTSP server on as many as the frame has bytes, the loop over a request's body
-- on 8191, and the loop over the fragments of a NAL unit on one more than its bytes; the loops of
-- the RTMP server on as many as there are bytes to read, to write or to decode; theorems say that
-- this is enough. The loop of an RTMP connection and the rounds of the day and night switch, which
-- have no end of their own, run over a given number of rounds. Every other loop is recursion on a
-- list or a count.
--
-- Not modelled: logging; json_object_put and free, which show in no state; the interleaving of the
-- processing thread with callers between its critical sections; the module callbacks and the
-- creation of the RTMP server, the ONVIF server, the creation, the destruction, the statistics and
-- the TLS backends of the RTSP server, the handlers of the HTTP module, the configuration of
-- photosensing, and the other modules that wrap the SDK.
pub mod Prelude
pub mod ModuleSystem
pub mod FrameManager
pub mod HttpRouter
pub mod Auth
pub mod HttpServer
pub mod RtspServer
pub mod RtmpServer
pub mod Photosensing
