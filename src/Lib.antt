-- ===== src/Lib.antt =====
-- mosaic-core: the connector of a robot. It keeps a WebSocket to a signaling server, answers the
-- offers of WebRTC that come over it, and ties data channels and media tracks to handlers.
--
-- State is passed explicitly (Exec): a method takes the state of the system and gives an outcome
-- (a result, an exception, or a fault for a call through a null pointer and for the end of the
-- process) with the state that it leaves. What was written before an exception stays written.
--
-- Files:
-- - Base: names of the library, texts, integers (Base/Int), maps as lists sorted by key
--   (Base/Dict).
-- - Exec: outcomes and state; Exec/Keeps: what a method keeps on every outcome; Exec/Fallible:
--   functions that may throw and read no state.
-- - Env: jsoncpp, WebRTC, the network and the handlers as records of operations that the
--   definitions take as a parameter.
-- - WebSocket: src/signaling/websocket_client_impl.cpp; each task of cpprestsdk is its outcome.
-- - Config: include/mosaic/configs_decl.hpp; Config/Reader:
--   src/config_reader/yaml_config_reader.cpp, with yaml-cpp as a parameter; Config/Represents:
--   what a node must hold; Config/Fields and Config/Reads: the reader beside it. Config/Resolver:
--   src/config_reader/config_reader_resolver.cpp.
-- - AutoConfigurer: src/auto_configurer/auto_configurer.cpp, with the registered classes of
--   connectors as a parameter; AutoConfigurer/Resolve: which entries of a configuration are used;
--   AutoConfigurer/ConnectorResolver: src/auto_configurer/connector_resolver.cpp;
--   AutoConfigurer/Registered: which factory makes a connector.
-- - Auth: src/security.
-- - System: the objects that the factory ties together, as one record of their members.
-- - Signaling: what src/signaling/signaling_client.cpp sends; Signaling/Receive: what it receives;
--   Signaling/Session: several connections of the socket.
-- - StateManager: src/core/connector_state_manager.cpp; StateManager/Report: what a change
--   reports; StateManager/Worker: the thread that reports, and its end.
-- - PeerConnection: src/core/peer_connection_manager.cpp, with the loops over handlers of
--   src/core/mosaic_connector.cpp in PeerConnection/Tracks; Release, Close, Offer, Replace and
--   Contract: the paths of ClosePeerConnection and HandleSdpOffer, and the contract of a handler;
--   Points: the steps of ClosePeerConnection between which another thread may run, with
--   Points/Progress and Late (a second call of it) and Points/Races (orders of two threads that go
--   wrong).
-- - Connector: the rest of src/core/mosaic_connector.cpp, and
--   src/core/peer_connection_observer.cpp.
-- - Factory: src/core/mosaic_connector_factory.cpp and ShuttingDown; Factory/Shutdown: what that
--   does; Factory/Tied: what Create ties together; Factory/Comeback: a reconnection behind it;
--   Factory/Unauthenticated: the authenticator behind it; Factory/Lifetime: the destructor of the
--   connector; Factory/Owners and Owners/Cycle: which object holds which.
-- - Events: the threads as an interleaving of events; Events/Messages and Events/Keeps: what every
--   event keeps, with Messages/Handled; Events/Authenticated: which messages authenticate, with
--   Authenticated/Ungranted and Runs; Events/Dead and Events/Owned: the state and the peer
--   connection behind a run; Events/Wired, NoFault, Armed and Unbroken: no call through a null
--   pointer, by the rules of Exec/Safe; Events/Negotiation: the observers of WebRTC behind an
--   offer; Events/Machine: the state machine that the events walk through, with Machine/Paths and
--   Machine/Simulation.
-- - DataChannel: src/handlers/data_channel; DataChannel/Queue: the order of what is sent;
--   DataChannel/ConnectionCheck: src/auto_configurer/impl/connection_check_dc_handler.cpp;
--   DataChannel/Messages: src/handlers/data_channel/data_channel_receivable.cpp.
-- - MediaTrack: src/handlers/media_track/media_track_handler.cpp; MediaTrack/Camera:
--   src/auto_configurer/impl/opencv_camera_mt_handler.cpp; MediaTrack/Frames: the sizes of frames,
--   with libyuv as a parameter; MediaTrack/Thread: the thread of the camera; MediaTrack/Lifetime:
--   the destructors; Camera/Configure and Camera/Described: its configuration, with std::stoi in
--   Exec/Stoi.
-- - Recorder: src/handlers/media_track/recordable.cpp and video_recorder.cpp; Recorder/Invariant:
--   what holds between its calls.
-- - Log: include/mosaic/logger and src/logger, with set_logger of
--   python/bindings/bind_logging.cpp; Log/Order: what is logged; Log/Webrtc:
--   src/logger/webrtc_log.cpp.
-- - Python: python/bindings. Python/Json: the values that go between jsoncpp and Python in
--   bind_data_channel.cpp, with Json/Filling, RoundTrip, Bounds and Caster on them;
--   Python/Receive: its trampolines; Python/Frames: numpy_to_mat of bind_media_track.cpp;
--   Python/Tracks: its handlers, with Tracks/Missing (classes without start or stop) and
--   Tracks/Tutorial (the class of docs/python/tutorials/handlers.md); Python/Configurers:
--   bind_auto_configurer.cpp, and Configurers/Registered on its auto_configure; Python/Gil: the
--   lock of the interpreter where bind_core.cpp's shutting_down waits for the threads of WebRTC
--   (Gil/Deadlock) and its create for the socket (Gil/Connecting); Python/Locks: that lock
--   beside a mutex under which SetState, or the callback of a send, logs (Locks/Crossed).
-- - Tests: the theorems at concrete systems.
--
-- Loops run over the lists of handlers, so that none needs fuel but the thread of the camera and
-- the broadcast thread, for which MediaTrack/Thread and StateManager/Worker say how much is
-- enough. In Events the broadcast thread and the reconnecting thread are events that may come at
-- any time, and one event runs to its end before the next: the interleavings inside a method are
-- not modelled but for ClosePeerConnection (PeerConnection/Points), nor are waiting times, the
-- destructors but those of the connector, the state manager and the tracks,
-- the pixels of frames and the console, nor the lock of the Python interpreter but for
-- shutting_down and create, and beside two mutexes (Python/Locks), there without the reports that
-- SetState sends over an open socket.
pub mod Base
pub mod Exec
pub mod WebSocket
pub mod Config
pub mod Env
pub mod Auth
pub mod System
pub mod Signaling
pub mod StateManager
pub mod PeerConnection
pub mod Connector
pub mod Factory
pub mod Events
pub mod AutoConfigurer
pub mod DataChannel
pub mod Recorder
pub mod Log
pub mod MediaTrack
pub mod Python
pub mod Tests
