-- ===== src/Lib.antt =====
-- A model of paintingCPS, a client that films pictures and a server that recognises the paintings on
-- them, in C++ (client/, server/).
--
-- The program's parts. A client opens two connections to the server, one that sends pictures and one
-- that receives answers, over sockets, over MsgDistributor, which multiplexes connections on one GUID
-- of the MobilityFirst network, or with MFPackager, which sends a picture as one message of that
-- network. The server counts the connections of each user, stores each picture, lets ImgMatch compare
-- it with the descriptors of the database, and answers with the index and the text of the painting;
-- or it passes the picture to Storm, through Kafka or a spout, and relays the answer. Metrics counts
-- the open requests.
--
-- Files and the code they are about:
--   CText             the C library's text routines as the program calls them
--   Exec              how a call ends: done, exit, waiting, or undefined behaviour as a fault
--   Calls             the calls of the operating system and of librdkafka, answered from a list
--   MsgDistributor    server/MsgDistributor.cpp, the same as client/MsgDistributor.cpp: State (fields,
--                     semaphores, locks), Frames (messages), Methods (init, close, listen),
--                     Connections (connect, accept), Transfer (send, recv); Channels is what the class
--                     promises its callers, as steps on queues, and Refinement the proof that the
--                     methods keep it; Protocol, Handshake, Delivery, Ids, Effects and Invariant hold
--                     proofs
--   ImgMatch          server/ImgMatch.cpp: Vision (what it takes from OpenCV), Database (init_DB),
--                     Vote and Match (matchImg), Location (calLocation and the drawing functions),
--                     Info (getInfo), InfoDb (init_infoDB, getMatchedImgInfo); Counting, Winner,
--                     Verdict and Location/Laws hold proofs
--   Images            pictures on their way from transmit_child of client/client-OpenCV.cpp to
--                     server_transmit of server/server-OpenCV.cpp: Info, Blocks, Tcp, Orbit; Child is
--                     transmit_child as a whole, Transmit is server_transmit as a whole over a socket;
--                     Packager is server/MFPackager.cpp, and Packed its use by both programs
--   Results           the answer, from result_child of server/server-OpenCV.cpp to result_thread of
--                     client/client-OpenCV.cpp; InfoFile starts at the image's text file
--   Client            the threads of client/client-OpenCV.cpp: Connect (the connections of
--                     result_thread and display_thread), Receiver (the loop of result_thread), Display
--                     and TestLoop (the loops of display_thread), Run and Stop (client_run, the listen
--                     thread, client_stop)
--   Kafka             server/KafkaProducer.cpp
--   Storm             the mode with Storm: Match and Location are ImgMatch.cpp and
--                     JniImageMatching.cpp of storm/src/jvm/storm/winlab/cps, Relay is the branch of
--                     server_result in server/server-OpenCV.cpp; Spout is the search for the spout in
--                     server_run and the part of server_transmit that keeps a picture, and
--                     Spout/Starter is storm/assist/starter.cpp; Answers and the rest of Spout hold
--                     proofs
--   Sessions          the threads server_transmit, server_result and result_child of one user, of
--                     server/server-OpenCV.cpp; Phases, Turns, Places, Order and
--                     Ending hold proofs
--   Server            server_run, server_main and mfThread of server/server-OpenCV.cpp
--   TestThread        test_Thread of client/client-OpenCV.cpp
--   Login             serverThread of server/server-OpenCV.cpp
--   Options           main of server/server-OpenCV.cpp and of client/client-OpenCV.cpp
--   Metrics           server/Metrics.cpp
--   Examples          the theorems at concrete values
--
-- Operations have the names of the functions in lower case with underscores. A method of
-- MsgDistributor is an action on the record of its fields; a method that waits is split into the part
-- before the wait and the part from it on, so that other threads act in between. Code that calls the
-- operating system is an action on a list of the answers that are left and a list of the calls made;
-- it waits when no answer is left.
--
-- Parameters: mfapi (Host in MsgDistributor/State.antt, with the bytes that fresh arrays hold), OpenCV
-- and the files (Vision in ImgMatch/Vision.antt, Geometry in ImgMatch/Location.antt), the answers of
-- the system and of librdkafka (Calls.antt), getopt_long_only (the options it returns), atof, the info
-- files, the contents of new arrays, and whether pthread_create makes a thread.
--
-- Bounds and fuel: digits are printed with one round per unit of the number and one more; the search
-- for a free id has one round more than there are connections; fread has one round per byte of the file
-- and one more; id_rounds has ten rounds, and the divisor leaves the range of int before they end; the
-- loops over calls have one round more than there are answers, and each round takes an answer.
--
-- Not modelled: the camera and the window themselves, the cancelling of threads and what the signal
-- handlers do beside setting global_stop, the time measurements, the arithmetic of calLocation's
-- geometry, the sample in encryption, and the parts in Java.
mod Prelude
mod Exec
pub mod CText
pub mod MsgDistributor
pub mod ImgMatch
pub mod Sessions
pub mod TestThread
pub mod Metrics
pub mod Images
pub mod Options
pub mod Server
pub mod Login
pub mod Results
pub mod Storm
mod Calls
pub mod Kafka
pub mod Client
mod Examples
