-- ===== src/Lib.antt =====
-- linuxptp-daemon: a model of the parts of the daemon that decide on states and clock classes.
--
-- The daemon runs the linuxptp programs of a node. Its processes, the GNSS receiver, the DPLL of
-- each network card, ts2phc and the others, report their states as events. The event handler
-- (pkg/event) keeps the last event of every interface of every process per configuration profile,
-- combines them into one state for each process, derives the state and the clock class of the
-- grandmaster from those, and asks ptp4l through pmc for another clock class when it changes. A
-- DPLL (pkg/dpll) reads its lock status from netlink, hears of the state of GNSS from the event
-- handler by a subscription, decides on its own state, runs a holdover in a goroutine when its
-- source is lost, and sends what it decides as an event. The leap manager (pkg/leap) keeps a file of
-- leap seconds in a configmap, updates it from what the receiver (pkg/ublox) reports, and tells
-- ptp4l through pmc of a leap second that comes. Package daemon parses the configurations of the
-- programs, adds the flags for monitoring, starts, restarts and stops the programs, follows the
-- states of the ports in the log of ptp4l, reports the clock of ts2phc and the state of the GNSS
-- receiver as events, and announces a fail-over. The plugin for the E810 card (addons/intel) reads
-- the product data of a card and adjusts the phase of its pins.
--
--   Base                 Booleans, lists, integers, and Go maps as association lists
--   Strings              texts as lists of bytes, with what the code calls of the packages strings
--                        and strconv: Lines, Fields, Number, Search, and Dict for maps from them
--   Event.Types          pkg/event/event.go: states, sources, value types, events, log lines
--   Event.Stats          pkg/event/stats.go: Data, UpdateState, GetDataDetails, AddEvent;
--                        Combined and Details hold the theorems
--   Event.Grandmaster    pkg/event/event.go: the switch of updateGMState; Table has the table in
--                        the comment over it, Coherence what goes with each state
--   Event.Handler        pkg/event/event.go: EventHandler, GetData, addEvent, updateSpecState,
--                        isSourceLost, getGNSSInterface, updateGMState, getGMState,
--                        getGMClockClass, GetPTPState; Store and Gm hold the theorems
--   Event.Process        pkg/event/event.go: one round of ProcessEvents, updateMetrics,
--                        UpdateClockStateMetrics; Reset, Metrics and Step hold the theorems
--   Event.Runs           pkg/event/event.go: Init and any number of rounds; the end of a DPLL
--   Event.ClockClass     pkg/event/event.go: updateCLockClass, UpdateClockClass, with the settings
--                        of pkg/protocol/type.go; Update and Settles hold the theorems
--   Event.PubSub         pkg/event/pubsub.go: Register, Unregister, monitor, notify
--   Dpll.Config          pkg/dpll/dpll.go: DpllConfig, NewDpll, the range tests,
--                        getWorseState, sendDpllEvent, sendDpllTerminationEvent
--   Dpll.Decision        pkg/dpll/dpll.go: stateDecision; Laws holds the theorems
--   Dpll.Holdover        pkg/dpll/dpll.go: what the goroutine holdover does in each case and at its
--                        end; Safety holds the theorems on the decisions and on it
--   Dpll.Netlink         pkg/dpll/dpll.go: PhaseOffsetPin, SetPhaseOffset, nlUpdateState
--   Dpll.Depending       pkg/dpll/dpll.go: DependingStates and DpllSubscriber.Notify
--   Dpll.Subscriptions   pkg/dpll/dpll.go: MonitorProcess and the subscribers of a DPLL
--   Dpll.Monitor         pkg/dpll/dpll.go: MonitorDpllNetlink with its goroutine monitorNtf, as
--                        steps, stopDpll, setAPIType, MonitorDpll; Notifications has what one
--                        Receive brings, Invariant and Redial hold the theorems
--   Dpll.Replies         pkg/dpll-netlink/dpll.go: ParseDeviceReplies, ParsePinReplies; Client has
--                        the requests, RoundTrip and Answers hold the theorems
--   Synce.Eec            pkg/synce/synce.go: EECState and its texts
--   Synce.Quality        pkg/synce/synce.go: the quality levels and ClockQuality; Order holds the
--                        theorems
--   Synce.Relations      pkg/synce/synce.go: the devices and GetSyncERelation; the searches for a
--                        device in pkg/daemon/daemon.go
--   Leap.File            pkg/leap/leap-file.go: parseLeapFile and renderLeapData; RoundTrip holds
--                        the theorems
--   Leap.Calendar        times and dates as pkg/leap/leap-file.go uses them
--   Leap.Manager         pkg/leap/leap-file.go: LeapManager, setUtcOffset, GetUtcOffset,
--                        rehashLeapData, updateLeapFile, updateLeapConfigmap, populateLeapData;
--                        Hash, Printable and Stored hold the theorems
--   Leap.Indication      pkg/leap/leap-file.go: processLeapIndication, handleLeapIndication;
--                        Settles holds the theorems
--   Leap.Window          pkg/leap/leap-file.go: IsLeapInWindow and the ticker of Run; Once and
--                        Shifted hold the theorems
--   Receiver.Poll        pkg/ublox/ublox.go: the polling buffer; Queue has what it promises
--   Receiver.Report      pkg/ublox/ublox.go: ExtractOffset, ExtractNavStatus, ExtractLeapSec;
--                        Message has the report that the receiver prints, Leaps the theorems
--   Daemon.Config        pkg/daemon/config.go: populatePtp4lConf; Laws holds the theorems
--   Daemon.Render        pkg/daemon/config.go: getSource, extractSynceRelations,
--                        renderPtp4lConf; Laws holds the theorems
--   Daemon.Ports         pkg/daemon/metrics.go: extractPTP4lEventState, the maps of interfaces, the
--                        port states in extractMetrics; Laws holds the theorems
--   Daemon.Offsets       pkg/daemon/metrics.go: extractSummaryMetrics; Panics holds the theorems
--   Daemon.Regular       pkg/daemon/metrics.go: extractRegularMetrics; Total holds the theorems
--   Daemon.Monitor       pkg/daemon/metrics.go: addFlagsForMonitor; Once holds the theorems
--   Daemon.Profiles      pkg/daemon/daemon.go: listHaProfiles, ApplyHaProfiles, addScheduling,
--                        failOverIndicator, containsAny; Found holds the theorems
--   Daemon.Failover      pkg/daemon/daemon.go: announceHAFailOver; Owner holds the theorems
--   Daemon.Output        pkg/daemon/daemon.go: the goroutine of cmdRun that reads the output,
--                        replaceClockID, removeMessageSuffix; Order holds the theorems
--   Daemon.SynceEvents   pkg/daemon/daemon.go: ProcessSynceEvents; Levels holds the theorems
--   Daemon.Gnss          pkg/daemon/gpsd.go: MonitorGNSSEventsWithUblox; State and Silence hold
--                        the theorems
--   Daemon.Command       pkg/daemon/daemon.go: cmdRun and cmdStop as a step relation; Returns and
--                        Hangs hold the theorems
--   Daemon.Ts2phc        pkg/daemon/daemon.go: getPTPThreshold, ProcessTs2PhcEvents,
--                        processPTPMetrics, updateGMStatusOnProcessDown, updateClockClass,
--                        HandlePmcTicker; Laws holds the theorems
--   Addons.Vpd           addons/intel/phaseAdjust.go: ParseVpd; Ends and RoundTrip hold the
--                        theorems
--   Addons.Delays        addons/intel/phaseAdjust.go and addons/intel/e810.go: the delay
--                        compensations; Clocks holds the theorems
--   Event.Tests, Dpll.Tests, Synce.Tests, Leap.Tests, Receiver.Tests, Daemon.Tests, Addons.Tests
--                        the theorems at concrete values
--
-- A method that changes its receiver is a function from the old value to the new one, beside what
-- it returns. What it does to the outside (an event on a channel, a goroutine started, a metric
-- set, a line written) is part of the result. A dereference of nil and an index out of range is
-- `none`. A Go map is an association list, so that the order of an iteration is that of the list.
-- All loops are structural recursion over the list they range over; the loop that removes from the
-- slice it ranges over counts the places of the slice, which are as many as its length at the
-- start, and the loops over the product data of a card run on fuel, of which one more than the bytes
-- of the file is enough where the array of the file has less than 2^16 bytes. What an array has
-- behind a slice of it is an argument where a slice expression can reach it.
--
-- Parameters: the clock accuracy of an offset (ClockAccuracyFromOffset of facebook/time), what pmc
-- reads and answers, the UTC offset, the time, and the offset that a holdover computes from its
-- slope, since these are computed outside of the modelled code or in floating point; SHA-1, the
-- configmap's service, floating-point numbers, and the reader of numbers with a prefix; what a
-- netlink connection answers, the encoder and the decoder of its messages, and whether a pin takes
-- its adjustment are arguments. Texts that the code takes apart are lists of bytes and of ASCII
-- characters, times are nanoseconds since the start of 1900, and the arithmetic of an int64 wraps
-- around where the code can reach its end.
--
-- Not modelled: how the decisions of a DPLL, which hold no lock, run beside each other and beside
-- its holdover; sockets, the Prometheus registry, the debug package, the loading of profiles
-- (pkg/daemon), pmc (pkg/pmc), network, the files of sysfs and the other plugins, since these are
-- input and output, or are left for later.
pub mod Base
pub mod Strings
pub mod Event
pub mod Dpll
pub mod Synce
pub mod Leap
pub mod Receiver
pub mod Daemon
pub mod Addons
