-- ===== src/Lib.antt =====
-- Verification of OpenCam's two desktop programs. The Linux controller (linux/src) shows a pairing
-- code, authenticates a phone over a small control protocol, checks the media URL that the phone
-- announces, and writes the stream into a virtual camera. Of the Windows program (windows/src) the
-- side of the control connection is covered, the messages it reads and writes, and its settings.
--
-- Parts and files
--   Control models linux/src/control_protocol.cpp: hexadecimal texts (Control.Hex), headers and
--     sequence numbers (Control.Wire), `waitFor` and `transfer` with deadlines (Control.Transfer),
--     `sendFrame` and `receiveFrame` (Control.Frames), keys and proofs (Control.Keys), AES-GCM
--     (Control.Gcm) and `AuthenticatedChannel` (Control.Channel). The operating system is the record
--     Control.Os and OpenSSL the record Control.Evp; the laws that proofs use of them are `Progress`
--     and `Stream` in Control.Os and `AesGcm` in Control.Gcm.Law.
--   Descriptor models linux/src/device_descriptor.cpp: the parser with its errors, the UTF-8 test,
--     and a writer of the layout that the parser is compared with.
--   Endpoint models linux/src/security_validation.cpp, StreamOptions linux/src/stream_options.cpp,
--     Redaction linux/src/diagnostic_redaction.cpp, and Strings the string searches that they use.
--   Session models `handleClient` of linux/src/main.cpp, and Pairing the loop of `main`, with the
--     set-up of its socket in Pairing.Startup. They compose the parts above: a session authenticates
--     with the frames and proofs, opens a channel, receives and parses a descriptor, checks its URL,
--     sends the activation and watches the media worker. What else they use of the host is the
--     record of Host.
--   MediaPipeline models linux/src/media_pipeline.cpp: the configuration of the output device
--     (MediaPipeline.Output), the packing of a frame (MediaPipeline.Packing), the write loop
--     (MediaPipeline.Writing), the worker `run` with its clean-ups (MediaPipeline.Worker), and, in
--     MediaPipeline itself, `start`, `stop` and `setFailure` as steps of two threads. FFmpeg, V4L2
--     and the stop flag are the record MediaPipeline.Media, with `Owns` for what each call acquires.
--   Windows models windows/src/net: the reader of serializer.cpp (Windows.Reader), its error
--     reports (Windows.ErrorReports), its legacy descriptor (Windows.Descriptor) and media URL
--     (Windows.MediaUrl), its activation packet (Windows.Activation), and connection.cpp
--     (Windows.Connection), which reads a stream of error reports. Windows.Devices joins the
--     connections of net/server.cpp, the descriptors of rtsp/manager.cpp and the listener of
--     application.cpp between them: devices connect and disconnect, and a stream is chosen.
--     Windows.Accept is the handler of an accepted socket in net/server.cpp, which reads a descriptor
--     before a deadline; Winsock, asio and the clock are its record `Sockets`. Windows.Settings models
--     settings.cpp: the global settings and the device states, and the file that `Save` writes and
--     `Load` reads (Windows.Settings.Lines, Maps and Decimal for the library calls).
--     Windows.Commands has the manager's command packets and how the phone reads them
--     (android/app/src/main/java/com/darusc/vcamdroid/StreamActivity.kt). The descriptor and the
--     activation packet are compared with those of the Linux program.
--   Prelude holds the shared names, tests, lists and texts.
--
-- How code is modelled
--   A byte is a number below 256, a buffer or a string the list of its bytes, and a position in a
--   buffer the list from it on. Stateful code passes the world of the operating system on. A
--   function that returns false or throws gives `none` or an error value. A 64-bit count keeps its
--   bound, and 32-bit conversions their wrap-around.
--
-- Fuel
--   The loops of `waitFor` and `transfer` take fuel; with a finite timeout, fuel for the nanoseconds
--   up to the deadline and two rounds more is enough, since every `poll` takes some time. The
--   redaction of a line has fuel for each of its bytes, and every round passes at least seven. The
--   pairing loop and the watch over the media worker do not end by themselves, and their fuel bounds
--   the rounds that are looked at. So do the retries, reads and writes of the media worker, which
--   end when the device, the source or the stop flag lets them. The loop over received error reports
--   has fuel for each pending byte, and every report takes at least one. `readExact` has as many
--   rounds as bytes to read, and every round but the last reads one.
--
-- Not modelled
--   The session takes the media worker, the probe, the address and device lookup and the QR display
--   as parameters. Log output, the texts of FFmpeg's errors and the wiping of secrets are left out.
--   Of the Windows program, the set-up of the acceptor and its thread, the receiver, the scalers
--   and the user interface are not modelled, nor a listener that throws. The settings leave the
--   path of their file to wxWidgets, and a value that `atoi` finds beyond `int`, which is
--   undefined, stands as it is. Of the Android application only the reading of the legacy commands
--   is modelled, without the activation; client.py is not modelled.
pub mod Prelude
pub mod Control
pub mod StreamOptions
pub mod Strings
pub mod Descriptor
pub mod Endpoint
pub mod Redaction
pub mod Session
pub mod Host
pub mod Pairing
pub mod MediaPipeline
pub mod Windows
